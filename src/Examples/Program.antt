-- ===== src/Examples/Program.antt =====
-- A run of the whole engine on the demo data: Alice reads an invoice of her tenant.
use zerra.Prelude.{ℕ, ◌≡◌, refl, true, none, some, [], show}
use zerra.Platform.{max, min}
use zerra.Prelude.Results.{ok}
use zerra.Contracts.{Verdict, DecisionResponse, CallEvent, TrustZone}
use zerra.Identity
use zerra.Graph
use zerra.Sequence
use zerra.Trust
use zerra.Policy.{
  evaluate, evaluate_one, outcome, final_action, revoked_rule, scope_rule, trust_rule, novel_rule,
  tenant_rule, action_of, default_policies,
}
use zerra.Fnmatch.{fnmatchcase}
use zerra.RiskCards
use zerra.Engine.{
  evaluate_event, evaluate_known, decide, response, card, enrich, sequence_event, verdict_of,
  zone_of, first_reason,
}
use zerra.Examples.{fixed_point, alice, engine_with, call}

abbrev pub own_invoice : CallEvent
own_invoice = call "human-alice" "/invoices/inv-a-001" (some "inv-a-001") (some "tenant-a")

abbrev pub allowed : DecisionResponse ℕ
allowed = record {
  call_id = "call-1";
  identity_id = "human-alice";
  verdict = Verdict.allow;
  trust_score = 9925;
  zone = TrustZone.green;
  graph_risk_score = 0;
  sequence_risk_score = 0;
  allowed = true;
  reason = "max risk 0; auth strength 95";
  risk_card = none;
  timestamp = 7;
  policy_ids_applied = [];
}

-- The decision of the run.
pub allowed_run : (evaluate_event fixed_point (engine_with alice) own_invoice 7 1).1 ≡ ok allowed
unfolding evaluate_event evaluate_known decide response card enrich sequence_event verdict_of
    zone_of first_reason Identity.get Graph.score Graph.object_fan_out Sequence.score
    Sequence.init_scorer Sequence.add Sequence.window_after Sequence.drop_expired
    Sequence.extract_features Sequence.strongest_match Sequence.combine Trust.process Trust.trust_of
    Trust.verdict_of_risk evaluate evaluate_one outcome Sequence.violates_scope
    Sequence.enumeration_exfil Sequence.credential_probing Sequence.third_failure
    Sequence.indices_from Sequence.first_from Sequence.scope_violation_chain Sequence.stronger
    Sequence.looks_exported Sequence.is_harvesting Sequence.exfil_match revoked_rule scope_rule
    trust_rule novel_rule tenant_rule action_of default_policies final_action fnmatchcase
    RiskCards.graph_score RiskCards.sequence_score RiskCards.trust_score_of max min show
allowed_run = refl
