-- ===== src/Metrics/Counts.antt =====
-- The counters of agent/metrics/metrics.py against one another.
use zerra.Prelude.{
  ℕ, ◌+◌, ◌≤◌, ◌≡◌, Bool, true, not, Option, some, [], ◌∷◌, String, arith, length, length-append,
}
use zerra.Contracts.{DecisionResponse, is_allow}
use zerra.Metrics.{ZerraMetrics, record_decision, reset, count_verdict, count_label, note_flag}

-- Every request is counted once by its verdict; what is detected was malicious, and every detection
-- and false alarm was a call that was stopped.
pub record IsConsistent {F : Type 0} (m : ZerraMetrics F) : Type 0 where
  pub verdicts : m.blocked + m.step_up + m.allowed ≡ length m.latencies
  pub detections : m.detected ≤ m.malicious
  pub alarms : m.detected + m.false_positives ≤ m.blocked + m.step_up

module _ {F : Type 0} where
  pub reset-IsConsistent : IsConsistent (reset {F = F})
  unfolding reset
  reset-IsConsistent = omega arith

  same_but_flags :
      (m : ZerraMetrics F) (flagged : Bool) (scenario : Option String) (index : Option ℕ)
      → IsConsistent m
      → IsConsistent (note_flag m flagged scenario index)
  unfolding note_flag
  same_but_flags m true (some s) (some i) c = ground arith
  same_but_flags m _ _ _ c = ground arith

  -- `record` keeps the counters consistent.
  pub record_decision-IsConsistent :
      (m : ZerraMetrics F) (d : DecisionResponse F) (latency : F) (malicious : Option Bool)
      (scenario : Option String) (index : Option ℕ)
      → IsConsistent m
      → IsConsistent (record_decision m d latency malicious scenario index)
  unfolding record_decision count_verdict count_label
  record_decision-IsConsistent m d latency malicious scenario index c =
      same_but_flags _ (not (is_allow d.verdict)) scenario index
        (ground (arith, length-append {0} m.latencies (latency ∷ [])))
