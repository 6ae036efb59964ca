-- ===== src/Prelude/Effects/Chains.antt =====
-- Both at once: what an action returns decides what the next one keeps.
use mathlib.Core.Path.{◌≡◌, refl}
use zerra.Prelude.Results.{Result, err, ok}
use zerra.Prelude.Effects.Actions.{Action, continue, ◌>>=◌, Keeps, Yields}

-- What the rest of a block keeps may rely on what the first call returns.
continue-Keeps_from :
    {S V W : Type 0} {P : S → Type 0} {R : V → Type 0} (next : V → Action S W) (r : Result V × S)
    → ((v : V) → r.0 ≡ ok v → R v)
    → ((v : V) → R v → Keeps P (next v))
    → P r.1
    → P (continue next r).1
continue-Keeps_from next (err e, s) first each h = h
continue-Keeps_from next (ok v, s) first each h = (each v (first v refl)).kept s h

pub Keeps-chain :
    {S V W : Type 0} {P : S → Type 0} {R : V → Type 0} {first : Action S V} {next : V → Action S W}
    → Keeps P first
    → Yields R first
    → ((v : V) → R v → Keeps P (next v))
    → Keeps P (first >>= next)
Keeps-chain {P = P} {R = R} {first = first} {next = next} k y each = record {
  kept = λ s h. continue-Keeps_from {P = P} {R = R} next (first s) (y.yielded s) each (k.kept s h);
}
