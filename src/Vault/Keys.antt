-- ===== src/Vault/Keys.antt =====
-- CredentialVault of agent/vault.py over a keyring: what a credential reads as after each
-- operation, and the index of the keys.
use zerra.Prelude.{
  ◌≡◌, refl, ◌∙◌, String, Bool, true, false, not, ◌&&◌, Option, none, some, List, [], ◌∷◌, ◌++◌,
  arith, if◌then◌else◌, filter, str_eq, str_eq_iff, str_mem, Bool-cases, ◌⊎◌, inl, inr,
}
use zerra.Prelude.Results.{Error, Result, err, ok}
use zerra.Vault.{Library, Vault, service_name, index_from, index_load, index_add, index_remove}

-- What the keyring and the JSON library document.
pub record IsLibrary {K : Type 0} (lib : Library K) : Type 0 where
  pub get-set :
      (k k' : K) (service key value other : String)
      → lib.set_password k service key value ≡ ok k'
      → lib.get_password k' service other
        ≡ (if str_eq key other then ok (some value) else lib.get_password k service other)
  pub get-delete :
      (k k' : K) (service key other : String)
      → lib.delete_password k service key ≡ ok k'
      → lib.get_password k' service other
        ≡ (if str_eq key other then ok none else lib.get_password k service other)
  pub loads-dumps : (keys : List String) → lib.loads_keys (lib.dumps_keys keys) ≡ ok keys

str_mem-append :
    (k x : String) (keys : List String)
    → str_mem k (keys ++ x ∷ []) ≡ (if str_eq x k then true else str_mem k keys)
str_mem-append k x [] = ground (arith, str_eq_iff k x, str_eq_iff x k)
str_mem-append k x (y ∷ keys) =
    ground (arith, str_mem-append k x keys, str_eq_iff k y, str_eq_iff x k)

str_mem-filter :
    (k x : String) (keys : List String)
    → str_mem k (filter (λ (key : String). not (str_eq key x)) keys)
      ≡ (if str_eq x k then false else str_mem k keys)
str_mem-filter k x [] = ground arith
str_mem-filter k x (y ∷ keys) =
    ground (arith, str_mem-filter k x keys, str_eq_iff k y, str_eq_iff x k, str_eq_iff y x)

listed_already :
    (key other : String) (keys : List String)
    → str_mem key keys ≡ true
    → str_mem other keys ≡ (if str_eq key other then true else str_mem other keys)
listed_already key other keys listed = elim (Bool-cases (str_eq key other)) [
  | inl same ↦ rw (same, ← (str_eq_iff key other).0 same) listed
  | inr differ ↦ rw differ refl
]

-- What a key reads as, and whether it is in the index.
abbrev pub Listed : Result (Option String) → Bool → Type 0
Listed r listed =
    ((r ≡ ok none) × (listed ≡ false))
    ⊎ ((value : String) × (r ≡ ok (some value)) × (listed ≡ true))

pub Listed-add :
    (test : Bool) (value : String) {r r' : Result (Option String)} {listed listed' : Bool}
    → r' ≡ (if test then ok (some value) else r)
    → listed' ≡ (if test then true else listed)
    → Listed r listed
    → Listed r' listed'
Listed-add true value p q h = inr (value, p, q)
Listed-add false value p q (inl (absent, unlisted)) = inl (p ∙ absent, q ∙ unlisted)
Listed-add false value p q (inr (old, present, listed)) = inr (old, p ∙ present, q ∙ listed)

pub Listed-remove :
    (test : Bool) {r r' : Result (Option String)} {listed listed' : Bool}
    → r' ≡ (if test then ok none else r)
    → listed' ≡ (if test then false else listed)
    → Listed r listed
    → Listed r' listed'
Listed-remove true p q h = inl (p, q)
Listed-remove false p q (inl (absent, unlisted)) = inl (p ∙ absent, q ∙ unlisted)
Listed-remove false p q (inr (old, present, listed)) = inr (old, p ∙ present, q ∙ listed)

module _ {K : Type 0} (lib : Library K) (laws : IsLibrary lib) where
  abbrev pub read : Vault K → String → Result (Option String)
  read s key = lib.get_password s.keyring service_name key

  -- The vault goes on although the keyring refused to remove a credential that is there.
  abbrev is_swallowed : Result K → Bool
  is_swallowed (err e) = lib.is_delete_error e
  is_swallowed (ok k) = false

  abbrev is_present : Result (Option String) → Bool
  is_present (ok none) = false
  is_present r = true

  abbrev pub hides : String → Vault K → Bool
  hides key s =
      is_swallowed (lib.delete_password s.keyring service_name key) && is_present (read s key)

  pub hides_lem :
      (key : String) (s : Vault K) (e : Error) {value : String}
      → lib.delete_password s.keyring service_name key ≡ err e
      → lib.is_delete_error e ≡ true
      → read s key ≡ ok (some value)
      → hides key s ≡ true
  hides_lem key s e refused missing present = rw (refused, missing, present) refl

  pub index-add :
      (key other : String) (s : Vault K)
      → str_mem other (index_load lib (index_add lib key s).1)
        ≡ (if str_eq key other then true else str_mem other (index_load lib s))
  unfolding index_add index_from
  index-add key other s = elim (Bool-cases (str_mem key (index_load lib s))) [
    | inl listed ↦ rw listed (listed_already key other (index_load lib s) listed)
    | inr new ↦
        rw (new, laws.loads-dumps (index_load lib s ++ key ∷ []))
          (str_mem-append other key (index_load lib s))
  ]

  pub index-remove :
      (key other : String) (s : Vault K)
      → str_mem other (index_load lib (index_remove lib key s).1)
        ≡ (if str_eq key other then false else str_mem other (index_load lib s))
  unfolding index_remove index_from
  index-remove key other s =
      rw (laws.loads-dumps (filter (λ (k : String). not (str_eq k key)) (index_load lib s)))
        (str_mem-filter other key (index_load lib s))

  -- A key is in the index exactly if the keyring has a credential for it.
  abbrev pub IsListed : Vault K → String → Type 0
  IsListed s key = Listed (read s key) (str_mem key (index_load lib s))
