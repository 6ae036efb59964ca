-- ===== src/Sequence/Service.antt =====
-- The entry point and its metrics: agent/sequential/scorer_service.py and metrics.py.
use zerra.Prelude.{ℕ, ◌+◌, String, Option, none, some, List, [], ◌∷◌, ◌++◌}
use zerra.Prelude.Dict.{Dict, insert, get_or}
use zerra.Platform.{Platform}
use zerra.Sequence.Events.{
  SequenceCallEvent, WindowManager, add, clear, init_windows, window_size, window_ttl_seconds,
}
use zerra.Sequence.Features.{Features, extract_features}
use zerra.Sequence.Detectors.{PatternMatch, strongest_match, combine}

pub record SequenceMetrics (F : Type 0) : Type 0 where
  pub latencies_ms : List F
  pub pattern_counts : Dict ℕ

pub record SequenceRiskScore (F : Type 0) : Type 0 where
  pub identity_id : String
  pub sequence_risk_score : F
  pub triggered_pattern : Option (PatternMatch F)
  pub feature_snapshot : Features F × Option ℕ
  pub scored_at : ℕ
  pub latency_ms : F

-- The module's `_windows` and `metrics`.
pub record Scorer (F : Type 0) : Type 0 where
  pub windows : WindowManager
  pub metrics : SequenceMetrics F

module _ {F : Type 0} where
  record_latency : SequenceMetrics F → F → Option (PatternMatch F) → SequenceMetrics F
  record_latency m latency none = record m { latencies_ms = m.latencies_ms ++ latency ∷ [] }
  record_latency m latency (some match) = record m {
    latencies_ms = m.latencies_ms ++ latency ∷ [];
    pattern_counts =
        insert match.pattern_name (get_or match.pattern_name 0 m.pattern_counts + 1)
          m.pattern_counts;
  }

  matched_index : Option (PatternMatch F) → Option ℕ
  matched_index none = none
  matched_index (some match) = some match.matched_at_call_index

  unfoldable pub init_scorer : Scorer F
  unfolding init_windows
  init_scorer = record {
    windows = init_windows window_size window_ttl_seconds;
    metrics = record { latencies_ms = []; pattern_counts = [] };
  }

  unfoldable pub reset_for_tests : Scorer F → Scorer F
  unfolding clear
  reset_for_tests s = record s { windows = clear s.windows }

-- `score(event)`, with the time and the measured latency given.
unfoldable pub score :
    (p : Platform)
    → Scorer p.Float
    → SequenceCallEvent
    → ℕ
    → p.Float
    → Scorer p.Float × SequenceRiskScore p.Float
unfolding record_latency matched_index
score p s event now latency =
    let (windows, window) = add s.windows event in
    let features = extract_features p window.events in
    let match = strongest_match p window.events features in
    (
      record { windows = windows; metrics = record_latency s.metrics latency match },
      record {
        identity_id = event.identity_id;
        sequence_risk_score = combine p match none;
        triggered_pattern = match;
        feature_snapshot = (features, matched_index match);
        scored_at = now;
        latency_ms = latency;
      },
    )
