-- ===== src/Prelude/Results.antt =====
-- The exceptions that the modelled code raises, as values.
use mathlib.Core.Path.{◌≡◌, refl}
use mathlib.Core.Logic.{◌⊎◌, inl, inr}
use Prim.Native.String.{String}
use mathlib.Core.Bool.{Bool, true, false}

pub data Error : Type 0 where
  key_error value_error access_denied : String → Error
  index_error : Error
  -- An HTTPException, with its status code's detail.
  unauthorized bad_request : String → Error
  -- A command that took too long, and any other failure of the system or of a library.
  timeout_expired : Error
  file_not_found os_error type_error attribute_error : String → Error

-- What a call comes to: an exception that leaves it, or the value that it returns.
pub data Result {ℓ} (V : Type ℓ) : Type ℓ where
  err : Error → Result V
  ok : V → Result V

-- Whether a call returns.
abbrev pub is_ok {ℓ} : {V : Type ℓ} → Result V → Bool
is_ok (err _) = false
is_ok (ok _) = true

pub is_ok-eq {ℓ} : {V : Type ℓ} (call : Result V) → is_ok call ≡ true → (v : V) × (call ≡ ok v)
is_ok-eq (err raised) returns = cc
is_ok-eq (ok v) returns = (v, refl)

pub Result-cases {ℓ} :
    {V : Type ℓ} (r : Result V) → ((e : Error) × (r ≡ err e)) ⊎ ((v : V) × (r ≡ ok v))
Result-cases (err e) = inl (e, refl)
Result-cases (ok v) = inr (v, refl)

pub ok-injective {ℓ} : {V : Type ℓ} {v w : V} → ok v ≡ ok w → v ≡ w
ok-injective same = cc

infixl 5 ◌>>=◌ ◌>>◌
-- The next call gets the value; an exception ends the block.
abbrev pub ◌>>=◌ {κ ℓ} : {W : Type κ} {V : Type ℓ} → Result V → (V → Result W) → Result W
err raised >>= next = err raised
ok v >>= next = next v

abbrev pub ◌>>◌ {κ} : {W : Type κ} → Result (Unit {0}) → Result W → Result W
first >> second = first >>= λ done. second

-- A block returns only if its first call does, and then its rest does.
pub >>=-eq-ok {κ ℓ} :
    {W : Type κ} {V : Type ℓ} (call : Result V) (next : V → Result W) {w : W}
    → (call >>= next) ≡ ok w
    → (v : V) × (call ≡ ok v) × (next v ≡ ok w)
>>=-eq-ok (err raised) next returns = cc
>>=-eq-ok (ok v) next returns = (v, refl, returns)
