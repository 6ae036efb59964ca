-- ===== src/Policy/Simulation.antt =====
-- `PolicyEngine.simulate`, agent/policy/engine.py: one policy against a recorded history.

use zerra.Prelude.{
  ℕ, ◌+◌, ◌*◌, Option, none, some, List, [], ◌∷◌, ◌++◌, map, leb, if◌then◌else◌, filter, length,
  str_eq, ◌+++◌, show, text_set, or_else,
}
use zerra.Prelude.Dict.{Dict, lookup, insert, get_or}
use zerra.Prelude.Results.{Result, ok, ◌>>=◌}
use zerra.Platform.{Platform}
use zerra.PolicyModels.{PolicyAction, PolicyEvaluation, PolicySimulationResult}
use zerra.Contracts.{CallEvent, Identity, Policy}
use zerra.Graph.{GraphScoreResult, fan_out}
use zerra.Policy.{evaluate_one}

-- The variables of the loop.
pub record Tally (F : Type 0) : Type 0 where
  pub found : List (PolicyEvaluation F)
  pub allow : ℕ
  pub step_up : ℕ
  pub block : ℕ
  pub history : Dict (List CallEvent)

abbrev pub start : {F : Type 0} → Tally F
start = record { found = []; allow = 0; step_up = 0; block = 0; history = [] }

-- The evaluations of an identity's earlier calls that lie in the window.
abbrev prior_calls : ℕ → Dict (List CallEvent) → CallEvent → List CallEvent
prior_calls window_seconds history event =
    filter (λ (old : CallEvent). leb event.timestamp (old.timestamp + window_seconds * 1_000_000))
      (get_or event.identity_id [] history)

module _ (p : Platform) where
  open p use {Float, lit}

  -- The graph result that `simulate` makes up for a rate policy; None for the others.
  unfoldable pub simulated_graph :
      Policy Float → Dict (List CallEvent) → CallEvent → Result (Option (GraphScoreResult Float))
  simulated_graph policy history event =
      if str_eq policy.rule_type "novel_object_rate"
      then (do
        window_seconds ← or_else policy.parameters.window_seconds (ok 60)
        let objects = length (
            text_set (
              map (λ (e : CallEvent). e.object_id) (prior_calls window_seconds history event)
              ++ event.object_id ∷ []))
        ok (
            some (record {
              graph_risk_score = lit 0;
              evidence = show objects +++ " distinct novel objects";
              factors = fan_out objects ∷ [];
            })))
      else ok none

  -- The evaluation of one call of a known identity.
  unfoldable pub simulated_evaluation :
      Policy Float
      → ℕ
      → Dict (List CallEvent)
      → CallEvent
      → Identity Float
      → Result (PolicyEvaluation Float)
  simulated_evaluation policy now history event identity = do
    graph ← simulated_graph policy history event
    evaluate_one p policy event identity (lit 10_000) graph now

  unfoldable pub noted : Policy Float → Dict (List CallEvent) → CallEvent → Dict (List CallEvent)
  noted policy history event =
      if str_eq policy.rule_type "novel_object_rate"
      then insert event.identity_id (get_or event.identity_id [] history ++ event ∷ []) history
      else history

  -- What an evaluation adds to the counts.
  unfoldable pub tally_evaluation : Tally Float → PolicyEvaluation Float → Tally Float
  tally_evaluation t e =
      if e.matched
      then elim e.action [
        | PolicyAction.allow ↦ record t { found = t.found ++ e ∷ []; allow = t.allow + 1 }
        | PolicyAction.step_up ↦ record t { found = t.found ++ e ∷ []; step_up = t.step_up + 1 }
        | PolicyAction.block ↦ record t { found = t.found ++ e ∷ []; block = t.block + 1 }
      ]
      else record t { allow = t.allow + 1 }

  unfoldable pub simulate_event :
      Policy Float → Dict (Identity Float) → ℕ → Tally Float → CallEvent → Result (Tally Float)
  unfolding tally_evaluation
  simulate_event policy identities now t event = elim (lookup event.identity_id identities) [
    | none ↦ ok (record t { allow = t.allow + 1 })
    | some identity ↦ simulated_evaluation policy now t.history event identity >>= λ e.
        ok (tally_evaluation (record t { history = noted policy t.history event }) e)
  ]

  unfoldable pub simulate_from :
      Policy Float → Dict (Identity Float) → ℕ → Tally Float → List CallEvent → Result (Tally Float)
  simulate_from policy identities now t [] = ok t
  simulate_from policy identities now t (event ∷ events) =
      simulate_event policy identities now t event >>= λ t'.
      simulate_from policy identities now t' events

  unfoldable pub result_of :
      Policy Float → List CallEvent → Tally Float → PolicySimulationResult Float
  result_of policy events t = record {
    policy_id = policy.id;
    total_events = length events;
    matched_events = length t.found;
    would_allow = t.allow;
    would_step_up = t.step_up;
    would_block = t.block;
    found = t.found;
    summary =
        show (length t.found)
        +++ " of "
        +++ show (length events)
        +++ " events matched "
        +++ policy.name;
  }

  unfoldable pub simulate :
      List CallEvent
      → Policy Float
      → Dict (Identity Float)
      → ℕ
      → Result (PolicySimulationResult Float)
  unfolding result_of
  simulate events policy identities now =
      simulate_from policy identities now start events >>= λ t. ok (result_of policy events t)
