-- ===== src/Metrics.antt =====
-- The scoreboard, agent/metrics/metrics.py.
pub mod Counts
use zerra.Prelude.{
  ℕ, ◌+◌, ◌-◌, String, Bool, true, false, not, Option, none, some, List, [], ◌∷◌, ◌++◌, ◌==◌,
  if◌then◌else◌, length, get_elem?, is_some,
}
use zerra.Prelude.Dict.{Dict, insert, lookup}
use zerra.Prelude.Results.{Result, ok, err, index_error, ◌>>=◌}
use zerra.Platform.{Platform, of_ℕ}
use zerra.Contracts.{Verdict, is_allow, is_block, is_step_up, DecisionResponse}

pub record ZerraMetrics (F : Type 0) : Type 0 where
  pub latencies : List F
  pub blocked : ℕ
  pub step_up : ℕ
  pub allowed : ℕ
  pub detected : ℕ
  pub malicious : ℕ
  pub false_positives : ℕ
  pub first_flags : Dict ℕ

pub record MetricsSnapshot (F : Type 0) : Type 0 where
  pub requests_scored : ℕ
  pub attacks_detected : ℕ
  pub false_positives : ℕ
  pub p95_latency_ms : F
  pub blocked_count : ℕ
  pub step_up_count : ℕ
  pub allowed_count : ℕ
  pub first_flagged_call_by_scenario : Dict ℕ
  pub detection_rate : Option F
  pub average_latency_ms : F

-- `int(b)`.
abbrev to_int : Bool → ℕ
to_int b = if b then 1 else 0

module _ {F : Type 0} where
  pub reset : ZerraMetrics F
  reset = record {
    latencies = [];
    blocked = 0;
    step_up = 0;
    allowed = 0;
    detected = 0;
    malicious = 0;
    false_positives = 0;
    first_flags = [];
  }

  count_verdict : ZerraMetrics F → Verdict → ZerraMetrics F
  count_verdict m verdict =
      if is_block verdict
      then record m { blocked = m.blocked + 1 }
      else if is_step_up verdict
      then record m { step_up = m.step_up + 1 }
      else record m { allowed = m.allowed + 1 }

  count_label : ZerraMetrics F → Option Bool → Bool → ZerraMetrics F
  count_label m none flagged = m
  count_label m (some true) flagged = record m {
    malicious = m.malicious + 1;
    detected = m.detected + to_int flagged;
  }
  count_label m (some false) flagged = record m {
    false_positives = m.false_positives + to_int flagged;
  }

  -- `setdefault`: the first flagged call of a scenario stays.
  note_flag : ZerraMetrics F → Bool → Option String → Option ℕ → ZerraMetrics F
  note_flag m true (some scenario) (some index) =
      if is_some (lookup scenario m.first_flags)
      then m
      else record m { first_flags = insert scenario index m.first_flags }
  note_flag m flagged scenario index = m

  -- `ZerraMetrics.record`.
  pub record_decision :
      ZerraMetrics F
      → DecisionResponse F
      → F
      → Option Bool
      → Option String
      → Option ℕ
      → ZerraMetrics F
  record_decision m decision latency_ms expected_malicious scenario call_index =
      let flagged = not (is_allow decision.verdict) in
      let timed = record m { latencies = m.latencies ++ latency_ms ∷ [] } in
      note_flag (count_label (count_verdict timed decision.verdict) expected_malicious flagged)
        flagged scenario call_index

module _ (p : Platform) where
  open p use {Float, lit, add, mul, div, lt, ceil}

  insert_sorted : Float → List Float → List Float
  insert_sorted x [] = x ∷ []
  insert_sorted x (y ∷ ys) = if lt y x then y ∷ insert_sorted x ys else x ∷ y ∷ ys

  -- `sorted(xs)`.
  sorted : List Float → List Float
  unfolding insert_sorted
  sorted [] = []
  sorted (x ∷ xs) = insert_sorted x (sorted xs)

  -- `sum(xs)`, from the left.
  sum_from : Float → List Float → Float
  sum_from acc [] = acc
  sum_from acc (x ∷ xs) = sum_from (add acc x) xs

  -- `ordered[ceil(len(ordered) * .95) - 1] if ordered else 0.0`.
  p95 : List Float → Result Float
  p95 [] = ok (lit 0)
  p95 (x ∷ xs) = elim (get_elem? (x ∷ xs) (ceil (mul (of_ℕ p (length (x ∷ xs))) (lit 95)) - 1)) [
    | none ↦ err index_error
    | some latency ↦ ok latency
  ]

  average_of : List Float → Float
  unfolding sum_from
  average_of [] = lit 0
  average_of (x ∷ xs) = div (sum_from (lit 0) (x ∷ xs)) (of_ℕ p (length (x ∷ xs)))

  snapshot : ZerraMetrics Float → Result (MetricsSnapshot Float)
  unfolding sorted p95 average_of
  snapshot m = do
    p95_latency_ms ← p95 (sorted m.latencies)
    ok (record {
      requests_scored = length m.latencies;
      attacks_detected = m.detected;
      false_positives = m.false_positives;
      p95_latency_ms = p95_latency_ms;
      blocked_count = m.blocked;
      step_up_count = m.step_up;
      allowed_count = m.allowed;
      first_flagged_call_by_scenario = m.first_flags;
      detection_rate =
          if m.malicious == 0 then none else some (div (of_ℕ p m.detected) (of_ℕ p m.malicious));
      average_latency_ms = average_of m.latencies;
    })
