-- ===== src/Zones.antt =====
-- The trust zones with hysteresis, agent/trust/score_store.py and the files below it: config.py,
-- inputs.py, models.py, weights.py, dynamics.py, thresholds.py and explain.py.
mod Models
pub mod Hysteresis
pub mod Histories
unfoldable pub use Models.*
use zerra.Prelude.{
  ℕ, ◌+◌, ◌-◌, String, Bool, true, false, ◌&&◌, ◌||◌, Option, none, some, List, [], ◌∷◌, map, ltb,
  leb, if◌then◌else◌, filter, length, take, ◌+++◌, join, or_else, spaced,
}
use zerra.Prelude.Dict.{Dict, lookup, insert}
use zerra.Platform.{Platform, of_ℕ, max, min}

abbrev warm_up_calls : ℕ
warm_up_calls = 8

abbrev consecutive_calls_to_confirm_zone_exit : ℕ
consecutive_calls_to_confirm_zone_exit = 2

pub zone_to_verdict : TrustZone → Verdict
zone_to_verdict TrustZone.green = Verdict.allow
zone_to_verdict TrustZone.yellow = Verdict.step_up
zone_to_verdict TrustZone.red = Verdict.block

-- The prefix that `build_evidence_string` looks up.
verdict_prefix : Verdict → String
verdict_prefix Verdict.block = "Blocked"
verdict_prefix Verdict.step_up = "Step-up required"
verdict_prefix Verdict.allow = "Allowed"

module _ (p : Platform) where
  open p use {Float, lit, add, sub, mul, div, lt, round1, format2}

  abbrev green_to_yellow : Float
  green_to_yellow = lit 7000

  abbrev yellow_to_green : Float
  yellow_to_green = lit 7800

  abbrev yellow_to_red : Float
  yellow_to_red = lit 4000

  abbrev red_to_yellow : Float
  red_to_yellow = lit 5000

  abbrev warm_up_score_floor : Float
  warm_up_score_floor = lit 4000

  abbrev sensitive_field_weight : Dict Float
  sensitive_field_weight =
      ("ssn", lit 100) ∷ ("salary", lit 80) ∷ ("internal_notes", lit 50) ∷ ("default", lit 10) ∷ []

  -- `sum(xs)`, from the left.
  total : Float → List Float → Float
  total acc [] = acc
  total acc (x ∷ xs) = total (add acc x) xs

  sensitivity_touched_score : List String → Float
  unfolding total
  sensitivity_touched_score [] = lit 0
  sensitivity_touched_score (f ∷ fields) =
      let scores =
        map (λ (g : String). or_else (lookup g sensitive_field_weight) (lit 10)) (f ∷ fields) in
      min p (lit 100) (
        add (div (total (lit 0) scores) (of_ℕ p (length scores)))
          (mul (lit 10) (of_ℕ p (length scores - 1))))

  abbrev factor : String → Float → Float → String → FactorBreakdown Float
  factor name raw_value weight source_module = record {
    name = name;
    raw_value = raw_value;
    weight = weight;
    contribution = mul raw_value weight;
    source_module = source_module;
  }

  pub compute_weighted_badness : TrustScoreInputs Float → Float × List (FactorBreakdown Float)
  unfolding total
  compute_weighted_badness inputs =
      let factors =
        factor "graph_risk" inputs.graph_risk_score (lit 35) "graph"
        ∷ factor "sequence_risk" inputs.sequence_risk_score (lit 35) "sequence"
        ∷ factor "auth_weakness" (sub (lit 100) inputs.auth_strength) (lit 15) "gateway"
        ∷ factor "sensitivity_touched" (sensitivity_touched_score inputs.sensitive_fields_touched)
            (lit 15) "gateway"
        ∷ [] in
      (total (lit 0) (map (λ (f : FactorBreakdown Float). f.contribution) factors), factors)

  unfoldable pub update_ewma : Float → Float → Float
  update_ewma prev_goodness new_goodness =
      let alpha = if lt new_goodness prev_goodness then lit 55 else lit 12 in
      max p (lit 0)
        (min p (lit 100) (add (mul (sub (lit 100) alpha) prev_goodness) (mul alpha new_goodness)))

  unfoldable pub apply_warm_up_floor : Float → ℕ → Float
  apply_warm_up_floor score call_count =
      if ltb call_count warm_up_calls then max p score warm_up_score_floor else score

  unfoldable pub step : ScoreState Float → Float → ScoreState Float
  step state badness =
      let smoothed = update_ewma state.ewma_state (sub (lit 100) badness) in
      record state {
        previous_score = state.trust_score;
        ewma_state = smoothed;
        trust_score = apply_warm_up_floor (mul smoothed (lit 10_000)) state.call_count;
        call_count = state.call_count + 1;
      }

  unfoldable pub next_zone : TrustZone → Float → ℕ → TrustZone × Bool
  next_zone TrustZone.green score consecutive_calls =
      if lt score green_to_yellow then (TrustZone.yellow, true) else (TrustZone.green, false)
  next_zone TrustZone.yellow score consecutive_calls =
      if lt score yellow_to_red
      then (TrustZone.red, true)
      else if lt yellow_to_green score
          && leb consecutive_calls_to_confirm_zone_exit consecutive_calls
      then (TrustZone.green, true)
      else (TrustZone.yellow, false)
  next_zone TrustZone.red score consecutive_calls =
      if lt red_to_yellow score && leb consecutive_calls_to_confirm_zone_exit consecutive_calls
      then (TrustZone.yellow, true)
      else (TrustZone.red, false)

  -- `sorted(…, reverse=True)` by the contribution: equal ones keep their order.
  insert_factor :
      FactorBreakdown Float → List (FactorBreakdown Float) → List (FactorBreakdown Float)
  insert_factor f [] = f ∷ []
  insert_factor f (g ∷ gs) =
      if lt f.contribution g.contribution then g ∷ insert_factor f gs else f ∷ g ∷ gs

  by_contribution : List (FactorBreakdown Float) → List (FactorBreakdown Float)
  unfolding insert_factor
  by_contribution [] = []
  by_contribution (f ∷ fs) = insert_factor f (by_contribution fs)

  -- `build_evidence_string`; its second argument is not used.
  build_evidence_string : List (FactorBreakdown Float) → Bool → Verdict → String
  unfolding by_contribution verdict_prefix
  build_evidence_string factors zone_changed verdict =
      elim (map
        (λ (f : FactorBreakdown Float). spaced f.name +++ " (" +++ format2 f.raw_value +++ ")")
        (filter (λ (f : FactorBreakdown Float). lt (lit 2) f.contribution)
          (take 2 (by_contribution factors)))) [
            | [] ↦ "No significant risk factors — routine activity."
            | r ∷ rs ↦
                verdict_prefix verdict
                +++ " — driven primarily by "
                +++ join " and " (r ∷ rs)
                +++ "."
          ]

  abbrev pub initial_state : String → ℕ → ScoreState Float
  initial_state identity_id now = record {
    identity_id = identity_id;
    trust_score = lit 10_000;
    previous_score = lit 10_000;
    zone = TrustZone.green;
    consecutive_zone_calls = 0;
    last_updated = now;
    ewma_state = lit 100;
    call_count = 0;
  }

  -- The state that `get_or_create` returns, and the store that it leaves.
  unfoldable pub get_or_create :
      TrustScoreStore Float → String → ℕ → TrustScoreStore Float × ScoreState Float
  get_or_create store identity_id now = elim (lookup identity_id store) [
    | none ↦
        (insert identity_id (initial_state identity_id now) store, initial_state identity_id now)
    | some state ↦ (store, state)
  ]

  get_score : TrustScoreStore Float → String → ℕ → TrustScoreStore Float × Float
  get_score store identity_id now =
      let (store', state) = get_or_create store identity_id now in (store', state.trust_score)

  -- The score is past the line on which its zone may be left for a better one.
  abbrev pub is_recovering : TrustZone → Float → Bool
  is_recovering TrustZone.green score = false
  is_recovering TrustZone.yellow score = lt yellow_to_green score
  is_recovering TrustZone.red score = lt red_to_yellow score

  -- What `process` writes into the state, and whether the zone changed.
  unfoldable pub updated : ScoreState Float → Float → ℕ → ScoreState Float × Bool
  updated state badness now =
      let stepped = step state badness in
      let recovery_streak =
        if is_recovering state.zone stepped.trust_score
        then state.consecutive_zone_calls + 1
        else 0 in
      let (zone, changed) = next_zone state.zone stepped.trust_score recovery_streak in
      (
        record stepped {
          consecutive_zone_calls = if changed then 0 else recovery_streak;
          zone = zone;
          last_updated = now;
        },
        changed,
      )

  unfoldable pub process :
      TrustScoreStore Float
      → TrustScoreInputs Float
      → ℕ
      → TrustScoreStore Float × TrustScoreResult Float
  unfolding build_evidence_string
  process store inputs now =
      let (store', old) = get_or_create store inputs.identity_id now in
      let (badness, factors) = compute_weighted_badness inputs in
      let (state, changed) = updated old badness now in
      let verdict = zone_to_verdict state.zone in
      (
        insert inputs.identity_id state store',
        record {
          identity_id = inputs.identity_id;
          call_id = inputs.call_id;
          trust_score = round1 state.trust_score;
          zone = state.zone;
          verdict = verdict;
          zone_changed = changed;
          factors = factors;
          evidence = build_evidence_string factors changed verdict;
          timestamp = now;
        },
      )
