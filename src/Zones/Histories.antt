-- ===== src/Zones/Histories.antt =====
-- The store of agent/trust/score_store.py after a history of calls.
use mathlib.Core.Path.{subst}
use zerra.Prelude.{
  ℕ, ◌≤◌, ◌≡◌, refl, String, false, some, List, [], ◌∷◌, arith, Option-cases, Bool-cases, inl, inr,
  str_eq,
}
use zerra.Prelude.Dict.{lookup, insert, lookup-insert}
use zerra.Platform.{Platform, AtMost, AtMost-lit, AtMost-refl}
use zerra.Zones.{
  ScoreState, TrustScoreInputs, TrustScoreStore, initial_state, get_or_create, process,
  warm_up_calls,
}
use zerra.Zones.Hysteresis.{IsValid, updated-IsValid, is_red}

module _ (p : Platform) where
  open p use {Float, lit}

  -- Every state of the store is valid.
  abbrev AllValid : TrustScoreStore Float → Type 0
  AllValid store = (who : String) (s : ScoreState Float) → lookup who store ≡ some s → IsValid p s

  initial_state-IsValid : (who : String) (now : ℕ) → IsValid p (initial_state p who now)
  initial_state-IsValid who now = record {
    score_low = AtMost-lit p 0 10_000 (omega arith);
    score_high = AtMost-refl p _;
    ewma_low = AtMost-lit p 0 100 (omega arith);
    ewma_high = AtMost-refl p _;
    short = omega arith;
    streak = λ h. ground arith;
    warm = λ h. refl;
  }

  insert-AllValid :
      (store : TrustScoreStore Float) (who : String) (s : ScoreState Float)
      → AllValid store
      → IsValid p s
      → AllValid (insert who s store)
  insert-AllValid store who s all v other s' found = elim (Bool-cases (str_eq who other)) [
    | inl same ↦
        let eq : s ≡ s' = ground (arith, lookup-insert who other s store) in subst (IsValid p) eq v
    | inr differs ↦ all other s' (ground (arith, lookup-insert who other s store))
  ]

  get_or_create-AllValid :
      (store : TrustScoreStore Float) (who : String) (now : ℕ)
      → AllValid store
      → AllValid (get_or_create p store who now).0 × IsValid p (get_or_create p store who now).1
  unfolding get_or_create
  get_or_create-AllValid store who now all = elim (Option-cases (lookup who store)) [
    | inl missing ↦
        rw (missing, get_or_create)
          (
            insert-AllValid store who _ all (initial_state-IsValid who now),
            initial_state-IsValid who now,
          )
    | inr (s, found) ↦ rw (found, get_or_create) (all, all who s found)
  ]

  -- The calls of a history, oldest first, each with its time.
  abbrev pub after :
      TrustScoreStore Float → List (TrustScoreInputs Float × ℕ) → TrustScoreStore Float
  after store [] = store
  after store ((inputs, now) ∷ calls) = after (process p store inputs now).0 calls

  process-AllValid :
      (store : TrustScoreStore Float) (inputs : TrustScoreInputs Float) (now : ℕ)
      → AllValid store
      → AllValid (process p store inputs now).0
  unfolding process
  process-AllValid store inputs now all =
      let (kept, valid) = get_or_create-AllValid store inputs.identity_id now all in
      insert-AllValid _ inputs.identity_id _ kept (updated-IsValid p _ _ now valid)

  -- After any history of calls, of any identities in any order, every state is valid.
  after-AllValid :
      (store : TrustScoreStore Float) (calls : List (TrustScoreInputs Float × ℕ))
      → AllValid store
      → AllValid (after store calls)
  after-AllValid store [] all = all
  after-AllValid store ((inputs, now) ∷ calls) all =
      after-AllValid (process p store inputs now).0 calls (process-AllValid store inputs now all)

  -- From an empty store, whatever the calls were, every identity's trust score lies between 0 and
  -- 100, its recovery streak is at most one call, and its zone is not red while it has made at most
  -- eight calls.
  pub every_history :
      (calls : List (TrustScoreInputs Float × ℕ)) (who : String) {s : ScoreState Float}
      → lookup who (after [] calls) ≡ some s
      → AtMost p (lit 0) s.trust_score
        × AtMost p s.trust_score (lit 10_000)
        × (s.consecutive_zone_calls ≤ 1)
        × (s.call_count ≤ warm_up_calls → is_red s.zone ≡ false)
  every_history calls who {s} found =
      let v = after-AllValid [] calls (λ _ _ h. cc) who s found in
      (v.score_low, v.score_high, v.short, v.warm)
