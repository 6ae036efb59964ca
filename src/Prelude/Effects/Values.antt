-- ===== src/Prelude/Effects/Values.antt =====
-- What the values of actions have.
use mathlib.Core.Path.{◌≡◌, refl, subst}
use mathlib.Core.Option.{Option, none, some}
use mathlib.Core.Bool.{Bool, true, false}
use zerra.Prelude.Tests.{if◌then◌else◌}
use zerra.Prelude.Results.{Error, Result, err, ok, ok-injective}
use zerra.Prelude.Effects.Actions.{
  Action, return, raise, continue, handle, settle, ◌>>=◌, attempt, finally, Yields,
}

module _ {S : Type 0} where
  pub Yields-return : {V : Type 0} {Q : V → Type 0} (v : V) → Q v → Yields {S = S} Q (return v)
  Yields-return {Q = Q} v q = record { yielded = λ s w same. subst Q (ok-injective same) q }

  pub Yields-raise : {V : Type 0} {Q : V → Type 0} (e : Error) → Yields {S = S} Q (raise {V = V} e)
  Yields-raise e = record { yielded = λ s w same. cc }

  continue-Yields :
      {V W : Type 0} {Q : W → Type 0} (next : V → Action S W) (r : Result V × S)
      → ((v : V) → Yields Q (next v))
      → (w : W) → (continue next r).0 ≡ ok w
      → Q w
  continue-Yields next (err e, s) each w same = cc
  continue-Yields next (ok v, s) each w same = (each v).yielded s w same

  pub Yields->>= :
      {V W : Type 0} {Q : W → Type 0} (first : Action S V) {next : V → Action S W}
      → ((v : V) → Yields Q (next v))
      → Yields Q (first >>= next)
  Yields->>= {Q = Q} first {next = next} each = record {
    yielded = λ s w same. continue-Yields {Q = Q} next (first s) each w same;
  }

  continue-Yields_from :
      {V W : Type 0} {R : V → Type 0} {Q : W → Type 0} (next : V → Action S W) (r : Result V × S)
      → ((v : V) → r.0 ≡ ok v → R v)
      → ((v : V) → R v → Yields Q (next v))
      → (w : W) → (continue next r).0 ≡ ok w
      → Q w
  continue-Yields_from next (err e, s) first each w same = cc
  continue-Yields_from next (ok v, s) first each w same = (each v (first v refl)).yielded s w same

  -- The same, where the rest relies on what the first call returns.
  pub Yields-chain :
      {V W : Type 0} {R : V → Type 0} {Q : W → Type 0} {first : Action S V} {next : V → Action S W}
      → Yields R first
      → ((v : V) → R v → Yields Q (next v))
      → Yields Q (first >>= next)
  Yields-chain {R = R} {Q = Q} {first = first} {next = next} y each = record {
    yielded =
        λ s w same. continue-Yields_from {R = R} {Q = Q} next (first s) (y.yielded s) each w same;
  }

  handle-Yields :
      {V : Type 0} {Q : V → Type 0} (handler : Error → Action S V) (r : Result V × S)
      → ((v : V) → r.0 ≡ ok v → Q v)
      → ((e : Error) → Yields Q (handler e))
      → (w : V) → (handle handler r).0 ≡ ok w
      → Q w
  handle-Yields handler (err e, s) body each w same = (each e).yielded s w same
  handle-Yields handler (ok v, s) body each w same = body w same

  pub Yields-attempt :
      {V : Type 0} {Q : V → Type 0} {body : Action S V} {handler : Error → Action S V}
      → Yields Q body
      → ((e : Error) → Yields Q (handler e))
      → Yields Q (attempt body handler)
  Yields-attempt {Q = Q} {body = body} {handler = handler} y each = record {
    yielded = λ s w same. handle-Yields {Q = Q} handler (body s) (y.yielded s) each w same;
  }

  settle-Yields :
      {V : Type 0} {Q : V → Type 0} (result : Result V) (r : Result (Unit {0}) × S)
      → ((v : V) → result ≡ ok v → Q v)
      → (w : V) → (settle result r).0 ≡ ok w
      → Q w
  settle-Yields result (err e, s) body w same = cc
  settle-Yields result (ok done, s) body w same = body w same

  pub Yields-finally :
      {V : Type 0} {Q : V → Type 0} {body : Action S V} (cleanup : Action S (Unit {0}))
      → Yields Q body
      → Yields Q (finally body cleanup)
  Yields-finally {Q = Q} {body = body} cleanup y = record {
    yielded =
        λ s w same. settle-Yields {Q = Q} (body s).0 (cleanup (body s).1) (y.yielded s) w same;
  }

  pub Yields-if :
      {V : Type 0} {Q : V → Type 0} (test : Bool) {yea nay : Action S V}
      → Yields Q yea
      → Yields Q nay
      → Yields Q (if test then yea else nay)
  Yields-if true y z = y
  Yields-if false y z = z

  pub Yields-weaken :
      {V : Type 0} {R Q : V → Type 0} {action : Action S V}
      → ((v : V) → R v → Q v)
      → Yields R action
      → Yields Q action
  Yields-weaken weaker y = record { yielded = λ s v same. weaker v (y.yielded s v same) }

  -- A test whose branches rely on what it came to.
  pub Yields-ite :
      {V : Type 0} {Q : V → Type 0} (test : Bool) {yea nay : Action S V}
      → (test ≡ true → Yields Q yea)
      → (test ≡ false → Yields Q nay)
      → Yields Q (if test then yea else nay)
  Yields-ite true y z = y refl
  Yields-ite false y z = z refl

-- A call whose value is only passed through a function.
pub continue-ok :
    {S V W : Type 0} (next : V → W) (r : Result V × S) {v : V}
    → r.0 ≡ ok v
    → (continue (λ (found : V). return (next found)) r).0 ≡ ok (next v)
continue-ok next (err e, s) same = cc
continue-ok next (ok w, s) same = cc

-- A block that returns went through its first call.
pub continue-eq-ok :
    {S V W : Type 0} (next : V → Action S W) (r : Result V × S) {w : W}
    → (continue next r).0 ≡ ok w
    → (v : V) × (r.0 ≡ ok v) × ((next v r.1).0 ≡ ok w)
continue-eq-ok next (err e, s) same = cc
continue-eq-ok next (ok v, s) same = (v, refl, same)

pub settle-eq-ok :
    {S V : Type 0} (result : Result V) (r : Result (Unit {0}) × S) {v : V}
    → (settle result r).0 ≡ ok v
    → result ≡ ok v
settle-eq-ok result (err e, s) same = cc
settle-eq-ok result (ok done, s) same = same

-- A handler that returns nothing.
pub handle-eq-some :
    {S V : Type 0} (r : Result (Option V) × S) {v : V}
    → (handle (λ (e : Error). return none) r).0 ≡ ok (some v)
    → r.0 ≡ ok (some v)
handle-eq-some (err e, s) same = cc
handle-eq-some (ok found, s) same = same
