-- ===== src/Prelude/Effects/Actions.antt =====
-- Code with effects: a call takes the state, and comes to a result and the new state, also when an
-- exception leaves it.
use mathlib.Core.Path.{◌≡◌}
use mathlib.Core.List.{List, [], ◌∷◌}
use mathlib.Core.Bool.{Bool, false}
use Prim.Native.Nat.{ℕ}
use Prim.Native.String.{String}
use zerra.Prelude.Tests.{◌==◌}
use zerra.Prelude.Results.{Error, Result, err, ok}

-- `pos n` is n, and `negsuc n` is -(n + 1).
pub data ℤ : Type 0 where
  pos : ℕ → ℤ
  negsuc : ℕ → ℤ

-- What `subprocess.run` returns.
pub record Completed : Type 0 where
  pub returncode : ℤ
  pub stdout : String
  pub stderr : String

abbrev pub succeeded : Completed → Bool
succeeded c = elim c.returncode [ pos n ↦ n == 0 | negsuc n ↦ false ]

abbrev pub Action : Type 0 → Type 0 → Type 0
Action S V = S → Result V × S

module _ {S : Type 0} where
  abbrev pub return : {V : Type 0} → V → Action S V
  return v s = (ok v, s)

  abbrev pub raise : {V : Type 0} → Error → Action S V
  raise e s = (err e, s)

  -- The rest of a block, after a call that came to a result in a state.
  abbrev pub continue : {V W : Type 0} → (V → Action S W) → Result V × S → Result W × S
  continue next (err e, s) = (err e, s)
  continue next (ok v, s) = next v s

  -- `except Exception as e`.
  abbrev pub handle : {V : Type 0} → (Error → Action S V) → Result V × S → Result V × S
  handle handler (err e, s) = handler e s
  handle handler (ok v, s) = (ok v, s)

  -- The end of a `finally` block: an exception of its own replaces the result.
  abbrev pub settle : {V : Type 0} → Result V → Result (Unit {0}) × S → Result V × S
  settle result (err e, s) = (err e, s)
  settle result (ok done, s) = (result, s)

infixl 5 ◌>>=◌ ◌>>◌
abbrev pub ◌>>=◌ : {S V W : Type 0} → Action S V → (V → Action S W) → Action S W
◌>>=◌ first next s = continue next (first s)

abbrev pub ◌>>◌ : {S V W : Type 0} → Action S V → Action S W → Action S W
first >> second = first >>= λ done. second

module _ {S : Type 0} where
  -- `try: body; except Exception as e: handler e`.
  abbrev pub attempt : {V : Type 0} → Action S V → (Error → Action S V) → Action S V
  attempt body handler s = handle handler (body s)

  -- `try: body; finally: cleanup`.
  abbrev pub finally : {V : Type 0} → Action S V → Action S (Unit {0}) → Action S V
  finally body cleanup s = settle (body s).0 (cleanup (body s).1)

  abbrev pub for_each : {V : Type 0} → (V → Action S (Unit {0})) → List V → Action S (Unit {0})
  for_each body [] = return tt
  for_each body (v ∷ vs) = body v >> for_each body vs

  -- An action keeps a property of the state, whether it returns or raises.
  pub record Keeps (P : S → Type 0) {V : Type 0} (action : Action S V) : Type 0 where
    pub kept : (s : S) → P s → P (action s).1

  -- What an action returns, if it returns, has the property.
  pub record Yields {V : Type 0} (Q : V → Type 0) (action : Action S V) : Type 0 where
    pub yielded : (s : S) (v : V) → (action s).0 ≡ ok v → Q v
