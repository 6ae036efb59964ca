-- ===== src/Prelude/Effects/States.antt =====
-- What actions keep of the state.

use mathlib.Core.List.{List, [], ◌∷◌}
use mathlib.Core.Bool.{Bool, true, false}
use zerra.Prelude.Tests.{if◌then◌else◌}
use zerra.Prelude.Results.{Error, Result, err, ok}
use zerra.Prelude.Effects.Actions.{
  Action, return, raise, continue, handle, settle, ◌>>=◌, attempt, finally, for_each, Keeps,
}

module _ {S : Type 0} where
  settle-Keeps :
      {V : Type 0} (P : S → Type 0) (result : Result V) (r : Result (Unit {0}) × S)
      → P r.1
      → P (settle result r).1
  settle-Keeps P result (err e, s) h = h
  settle-Keeps P result (ok done, s) h = h

module _ {S : Type 0} {P : S → Type 0} where
  pub Keeps-return : {V : Type 0} (v : V) → Keeps P (return {S = S} v)
  Keeps-return v = record { kept = λ s h. h }

  pub Keeps-raise : {V : Type 0} (e : Error) → Keeps P (raise {S = S} {V = V} e)
  Keeps-raise e = record { kept = λ s h. h }

  continue-Keeps :
      {V W : Type 0} (next : V → Action S W) (r : Result V × S)
      → ((v : V) → Keeps P (next v))
      → P r.1
      → P (continue next r).1
  continue-Keeps next (err e, s) each h = h
  continue-Keeps next (ok v, s) each h = (each v).kept s h

  pub Keeps->>= :
      {V W : Type 0} {first : Action S V} {next : V → Action S W}
      → Keeps P first
      → ((v : V) → Keeps P (next v))
      → Keeps P (first >>= next)
  Keeps->>= {first = first} {next = next} k each = record {
    kept = λ s h. continue-Keeps next (first s) each (k.kept s h);
  }

  handle-Keeps :
      {V : Type 0} (handler : Error → Action S V) (r : Result V × S)
      → ((e : Error) → Keeps P (handler e))
      → P r.1
      → P (handle handler r).1
  handle-Keeps handler (err e, s) each h = (each e).kept s h
  handle-Keeps handler (ok v, s) each h = h

  pub Keeps-attempt :
      {V : Type 0} {body : Action S V} {handler : Error → Action S V}
      → Keeps P body
      → ((e : Error) → Keeps P (handler e))
      → Keeps P (attempt body handler)
  Keeps-attempt {body = body} {handler = handler} k each = record {
    kept = λ s h. handle-Keeps handler (body s) each (k.kept s h);
  }

  pub Keeps-finally :
      {V : Type 0} {body : Action S V} {cleanup : Action S (Unit {0})}
      → Keeps P body
      → Keeps P cleanup
      → Keeps P (finally body cleanup)
  Keeps-finally {body = body} {cleanup = cleanup} k c = record {
    kept = λ s h. settle-Keeps P (body s).0 (cleanup (body s).1) (c.kept (body s).1 (k.kept s h));
  }

  pub Keeps-if :
      {V : Type 0} (test : Bool) {yea nay : Action S V}
      → Keeps P yea
      → Keeps P nay
      → Keeps P (if test then yea else nay)
  Keeps-if true k l = k
  Keeps-if false k l = l

  pub Keeps-for_each :
      {V : Type 0} {body : V → Action S (Unit {0})}
      → ((v : V) → Keeps P (body v))
      → (vs : List V) → Keeps P (for_each body vs)
  Keeps-for_each each [] = Keeps-return tt
  Keeps-for_each each (v ∷ vs) = Keeps->>= (each v) (λ done. Keeps-for_each each vs)
