-- ===== src/Examples/Components.antt =====
-- The components on concrete inputs.
use zerra.Prelude.{
  ℕ, ◌≤◌, ◌≡◌, ◌≢◌, ◌↔◌, Bool, true, false, none, some, List, [], ◌∷◌, String, arith, All, any,
  str_eq_iff,
}
use zerra.Contracts.{CallEvent, Policy}
use zerra.PolicyModels.{PolicyAction, PolicyEvaluation}
use zerra.Graph
use zerra.Graph.Risk.{score_high}
use zerra.Policy.{default_policies, final_action}
use zerra.Policy.Final.{final_action-strictest, blocks, steps_up, rank}
use zerra.Trust.{TrustScoreInputs, TrustVerdict, process}
use zerra.Trust.Verdicts.{process_verdict}
use zerra.Examples.{fixed_point, agent, call}
use zerra.Examples.Program.{own_invoice}

abbrev policies_example : List (Policy ℕ)
policies_example = default_policies fixed_point

abbrev evaluation : String → Bool → PolicyAction → PolicyEvaluation ℕ
evaluation id matched action = record {
  policy_id = id;
  policy_name = id;
  matched = matched;
  action = action;
  reason = id;
  evidence = [];
  evaluated_at = 7;
}

abbrev evaluations : List (PolicyEvaluation ℕ)
evaluations =
    evaluation "first" true PolicyAction.step_up ∷ evaluation "second" false PolicyAction.block ∷ []

final_action-strictest_example :
    All
      (λ (e : PolicyEvaluation ℕ).
        e.matched ≡ true → rank e.action ≤ rank (final_action evaluations))
      evaluations
    × (final_action evaluations ≡ PolicyAction.block → any blocks evaluations ≡ true)
    × (final_action evaluations ≡ PolicyAction.step_up → any steps_up evaluations ≡ true)
final_action-strictest_example = final_action-strictest evaluations

abbrev foreign : CallEvent
foreign = record own_invoice { tenant_id = some "tenant-b"; home_tenant_id = some "tenant-a" }

score_high_example : fixed_point.lt (Graph.score fixed_point [] foreign).graph_risk_score 85 ≡ false
score_high_example = score_high fixed_point [] foreign

other_call : foreign.identity_id ≢ agent.id
other_call h = grind (arith, str_eq_iff foreign.identity_id agent.id)

abbrev agent_call : CallEvent
agent_call = call "finance-agent" "/invoices/1" (some "1") none

abbrev inputs : TrustScoreInputs ℕ
inputs = record {
  identity_id = "human-alice";
  call_id = "call-1";
  auth_strength = 95;
  graph_risk_score = 90;
  sequence_risk_score = 0;
  sensitive_fields_touched = "ssn" ∷ [];
}

process_verdict_example :
    ((process fixed_point [] inputs).1.verdict ≡ TrustVerdict.block ↔ false ≡ false)
    × ((process fixed_point [] inputs).1.verdict ≡ TrustVerdict.allow ↔ false ≡ true)
process_verdict_example = process_verdict fixed_point [] inputs
