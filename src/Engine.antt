-- ===== src/Engine.antt =====
-- The decision pipeline, agent/orchestrator/engine.py: one event through the identity registry, the
-- graph, the sequence scorer, the trust store and the policies, to a decision.
pub mod Decision
pub mod Verdicts
pub mod Hard
pub mod Isolation
pub mod Bounds
use zerra.Prelude.{
  true, ℕ, String, Option, none, some, List, [], ◌∷◌, ◌++◌, map, if◌then◌else◌, filter,
}
use zerra.Prelude.Results.{Result, ok, ◌>>=◌}
use zerra.Platform.{Platform}
use zerra.PolicyModels.{PolicyAction, PolicyEvaluation}
use zerra.Contracts.{
  CallEvent, Verdict, is_allow, identity_type_value, TrustZone, Identity, Policy, RiskCard,
  DecisionResponse,
}
use zerra.Identity
use zerra.Identity.{Registry}
use zerra.Graph
use zerra.Graph.{GraphScoreResult, IntentGraphStore}
use zerra.Sequence
use zerra.Sequence.{Scorer, SequenceCallEvent, SequenceRiskScore}
use zerra.Trust
use zerra.Trust.{TrustScoreInputs, TrustScoreStore, TrustScoreResult, to_verdict}
use zerra.Policy.{evaluate, final_action}
use zerra.RiskCards.{build, graph_score, sequence_score, trust_score_of}

-- The engine's components, with the sequence scorer's module state.
pub record ZerraEngine (F : Type 0) : Type 0 where
  pub registry : Registry F
  pub graph_store : IntentGraphStore
  pub scorer : Scorer F
  pub trust_store : TrustScoreStore F
  pub policies : List (Policy F)

-- `Verdict(policy_action.value)` unless the policies allow.
unfoldable pub verdict_of : PolicyAction → Verdict → Verdict
verdict_of PolicyAction.block trust = Verdict.block
verdict_of PolicyAction.step_up trust = Verdict.step_up
verdict_of PolicyAction.allow trust = trust

unfoldable pub zone_of : Verdict → TrustZone
zone_of Verdict.allow = TrustZone.green
zone_of Verdict.step_up = TrustZone.yellow
zone_of Verdict.block = TrustZone.red

-- `_sequence_event`.
unfoldable pub sequence_event : CallEvent → SequenceCallEvent
sequence_event event = record {
  id = event.id;
  identity_id = event.identity_id;
  timestamp = event.timestamp;
  endpoint = event.endpoint;
  method = event.method;
  object_id = event.object_id;
  object_type = event.object_type;
  status_code = event.status_code;
  response_fields = event.response_fields ++ event.sensitive_fields_touched;
  identity_type = identity_type_value event.identity_type;
  scope_contract = event.scope_contract;
  params = event.metadata;
}

module _ (p : Platform) where
  open p use {Float, lit}

  unfoldable pub enrich : CallEvent → Identity Float → CallEvent
  enrich event identity = record event {
    identity_type = identity.type;
    home_tenant_id = some identity.tenant_id;
    scope_contract = some identity.scope_contract;
  }

  -- The card of a decision: none for an allow.
  unfoldable pub card :
      CallEvent
      → Verdict
      → Option (GraphScoreResult Float)
      → Option (SequenceRiskScore Float)
      → Option (TrustScoreResult Float)
      → List (PolicyEvaluation Float)
      → ℕ
      → Result (Option (RiskCard Float))
  card event verdict graph sequence trust evaluations now =
      if is_allow verdict
      then ok none
      else (do c ← build p event verdict graph sequence trust evaluations now; ok (some c))

  -- The record that `_response` returns.
  abbrev decision_of :
      CallEvent
      → Verdict
      → Option (GraphScoreResult Float)
      → Option (SequenceRiskScore Float)
      → Option (TrustScoreResult Float)
      → String
      → List String
      → Option (RiskCard Float)
      → ℕ
      → DecisionResponse Float
  decision_of event verdict graph sequence trust reason policies risk_card now = record {
    call_id = event.id;
    identity_id = event.identity_id;
    verdict = verdict;
    trust_score = trust_score_of p trust;
    zone = zone_of verdict;
    graph_risk_score = graph_score p graph;
    sequence_risk_score = sequence_score p sequence;
    allowed = is_allow verdict;
    reason = reason;
    risk_card = risk_card;
    timestamp = now;
    policy_ids_applied = policies;
  }

  -- `_response`.
  unfoldable pub response :
      CallEvent
      → Verdict
      → Option (GraphScoreResult Float)
      → Option (SequenceRiskScore Float)
      → Option (TrustScoreResult Float)
      → String
      → List String
      → List (PolicyEvaluation Float)
      → ℕ
      → Result (DecisionResponse Float)
  response event verdict graph sequence trust reason policies evaluations now = do
    risk_card ← card event verdict graph sequence trust evaluations now
    ok (decision_of event verdict graph sequence trust reason policies risk_card now)

  -- `_immediate`, which `evaluate` calls for an unknown identity.
  pub immediate : CallEvent → String → String → ℕ → Result (DecisionResponse Float)
  immediate event reason policy now =
      let evaluation : PolicyEvaluation Float = record {
        policy_id = policy;
        policy_name = policy;
        matched = true;
        action = PolicyAction.block;
        reason = reason;
        evidence = [];
        evaluated_at = now;
      } in
      response event Verdict.block none none none reason (policy ∷ []) (evaluation ∷ []) now

  unfoldable pub first_reason : String → List (PolicyEvaluation Float) → String
  first_reason default [] = default
  first_reason default (e ∷ _) = e.reason

  -- What `evaluate` makes of the scores and of the policies' evaluations.
  unfoldable pub decide :
      CallEvent
      → GraphScoreResult Float
      → SequenceRiskScore Float
      → TrustScoreResult Float
      → List (PolicyEvaluation Float)
      → ℕ
      → Result (DecisionResponse Float)
  decide event graph sequence trust evaluations now =
      let verdict = verdict_of (final_action evaluations) (to_verdict trust.verdict) in
      let matched = filter (λ (e : PolicyEvaluation Float). e.matched) evaluations in
      response event verdict (some graph) (some sequence) (some trust)
        (first_reason trust.evidence matched)
        (map (λ (e : PolicyEvaluation Float). e.policy_id) matched) evaluations now

  abbrev trust_inputs :
      Identity Float
      → CallEvent
      → GraphScoreResult Float
      → SequenceRiskScore Float
      → TrustScoreInputs Float
  trust_inputs identity enriched graph sequence = record {
    identity_id = identity.id;
    call_id = enriched.id;
    auth_strength = identity.auth_strength;
    graph_risk_score = graph.graph_risk_score;
    sequence_risk_score = sequence.sequence_risk_score;
    sensitive_fields_touched = enriched.sensitive_fields_touched;
  }

  -- The pipeline for a known identity. The stores are written before the policies are asked, so they
  -- stay written if a policy raises.
  unfoldable pub evaluate_known :
      ZerraEngine Float
      → CallEvent
      → Identity Float
      → ℕ
      → Float
      → ZerraEngine Float × Result (DecisionResponse Float)
  evaluate_known engine event identity now latency =
      let enriched = enrich event identity in
      let graph = Graph.score p engine.graph_store enriched in
      let (scorer, sequence) =
        Sequence.score p engine.scorer (sequence_event enriched) now latency in
      let (trust_store, trust) =
        Trust.process p engine.trust_store (trust_inputs identity enriched graph sequence) in
      (
        record engine {
          graph_store = Graph.record_call engine.graph_store enriched;
          scorer = scorer;
          trust_store = trust_store;
        },
        evaluate p engine.policies enriched identity trust.trust_score (some graph) now
            >>= λ evaluations. decide enriched graph sequence trust evaluations now,
      )

  -- `ZerraEngine.evaluate`, with the time and the scorer's measured latency given.
  unfoldable pub evaluate_event :
      ZerraEngine Float
      → CallEvent
      → ℕ
      → Float
      → ZerraEngine Float × Result (DecisionResponse Float)
  evaluate_event engine event now latency = elim (Identity.get engine.registry event.identity_id) [
    | none ↦ (engine, immediate event "unknown identity" "identity-resolution" now)
    | some identity ↦ evaluate_known engine event identity now latency
  ]
