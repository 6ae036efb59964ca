-- ===== src/AttackSim.antt =====
-- The attack simulator, agent/attack_sim/simulator.py: a scenario's events through the engine.
pub mod Runs
pub mod Scenarios
use zerra.Prelude.{
  ℕ, ◌+◌, String, Bool, not, Option, none, some, List, [], ◌∷◌, ◌++◌, if◌then◌else◌, length,
  count_if,
}
use zerra.Prelude.Results.{Result, ok, err, value_error, ◌>>=◌}
use zerra.Platform.{Platform}
use zerra.Contracts.{CallEvent, DecisionResponse, is_allow, is_step_up, is_block}
use zerra.Metrics.{ZerraMetrics, record_decision}
use zerra.Engine.{ZerraEngine, evaluate_event}

pub data ScenarioType : Type 0 where
  normal fast_enumeration slow_mutated_enumeration : ScenarioType
  cross_tenant scope_violation credential_probing : ScenarioType

abbrev scenario_value : ScenarioType → String
scenario_value ScenarioType.normal = "normal"
scenario_value ScenarioType.fast_enumeration = "fast_enumeration"
scenario_value ScenarioType.slow_mutated_enumeration = "slow_mutated_enumeration"
scenario_value ScenarioType.cross_tenant = "cross_tenant"
scenario_value ScenarioType.scope_violation = "scope_violation"
scenario_value ScenarioType.credential_probing = "credential_probing"

pub record ScenarioEvent : Type 0 where
  pub scenario : ScenarioType
  pub expected_malicious : Bool
  pub event : CallEvent

pub record ScenarioRunResult (F : Type 0) : Type 0 where
  pub scenario : ScenarioType
  pub total_calls : ℕ
  pub allowed : ℕ
  pub stepped_up : ℕ
  pub blocked : ℕ
  pub first_flagged_call : Option ℕ
  pub decisions : List (DecisionResponse F)

-- The loop's variables, with the engine and the metrics that it writes to.
pub record Run (F : Type 0) : Type 0 where
  pub engine : ZerraEngine F
  pub metrics : Option (ZerraMetrics F)
  pub decisions : List (DecisionResponse F)
  pub first_flagged : Option ℕ

module _ (p : Platform) where
  open p use {Float}

  record_in :
      Option (ZerraMetrics Float)
      → DecisionResponse Float
      → Float
      → ScenarioEvent
      → ℕ
      → Option (ZerraMetrics Float)
  record_in none decision latency e index = none
  record_in (some m) decision latency e index = some (
      record_decision m decision latency (some e.expected_malicious)
        (some (scenario_value e.scenario)) (some index))

  -- One round: `index` counts from 1, and `clock index` is the time with the measured latency.
  round : (ℕ → ℕ × Float) → ℕ → Run Float → ScenarioEvent → Result (Run Float)
  round clock index r e =
      let (now, latency) = clock index in
      let (engine, outcome) = evaluate_event p r.engine e.event now latency in
      outcome >>= λ decision. ok (record {
        engine = engine;
        metrics = record_in r.metrics decision latency e index;
        decisions = r.decisions ++ decision ∷ [];
        first_flagged =
            if not (is_allow decision.verdict)
            then elim r.first_flagged [ none ↦ some index | some i ↦ some i ]
            else r.first_flagged;
      })

  pub rounds : (ℕ → ℕ × Float) → ℕ → Run Float → List ScenarioEvent → Result (Run Float)
  rounds clock index r [] = ok r
  rounds clock index r (e ∷ events) =
      round clock index r e >>= λ r'. rounds clock (index + 1) r' events

  summary_of : ScenarioType → ℕ → Run Float → ScenarioRunResult Float
  summary_of scenario total r = record {
    scenario = scenario;
    total_calls = total;
    allowed = count_if (λ (d : DecisionResponse Float). is_allow d.verdict) r.decisions;
    stepped_up = count_if (λ (d : DecisionResponse Float). is_step_up d.verdict) r.decisions;
    blocked = count_if (λ (d : DecisionResponse Float). is_block d.verdict) r.decisions;
    first_flagged_call = r.first_flagged;
    decisions = r.decisions;
  }

  -- `AttackSimulator.run`.
  pub run :
      (ℕ → ℕ × Float)
      → ZerraEngine Float
      → List ScenarioEvent
      → Option (ZerraMetrics Float)
      → Result (Run Float × ScenarioRunResult Float)
  run clock engine [] metrics = err (value_error "A scenario needs at least one event")
  run clock engine (e ∷ events) metrics =
      rounds clock 1
        (record { engine = engine; metrics = metrics; decisions = []; first_flagged = none })
        (e ∷ events)
      >>= λ r. ok (r, summary_of e.scenario (length (e ∷ events)) r)
