-- ===== src/Engine/Bounds.antt =====
-- The scores of a decision of agent/orchestrator/engine.py, against the ranges of its data contract.
use zerra.Prelude.{
  ℕ, ◌≡◌, refl, Option, none, some, String, List, [], ◌∷◌, arith, Option-cases, inl, inr,
}
use zerra.Prelude.Results.{ok, ok-injective, >>=-eq-ok}
use zerra.Platform.{Platform, AtMost, AtMost-lit, AtMost-trans, AtMost-refl}
use zerra.PolicyModels.{PolicyEvaluation}
use zerra.Contracts.{CallEvent, Verdict, Identity, DecisionResponse}
use zerra.Identity
use zerra.Graph.{GraphScoreResult}
use zerra.Graph.Risk.{score_bounds}
use zerra.Sequence.{SequenceRiskScore}
use zerra.Sequence
use zerra.Sequence.Bounds.{strongest_match_bounds}
use zerra.Trust.{TrustScoreResult}
use zerra.Trust.Verdicts.{process_score}
use zerra.RiskCards.{graph_score, sequence_score, trust_score_of}
use zerra.Engine.{
  ZerraEngine, enrich, card, response, decision_of, immediate, decide, evaluate_known,
  evaluate_event,
}
use zerra.Engine.Decision.{
  evaluate_event-unknown, evaluate_event-known, evaluations_of, graph_of, sequence_of, trust_of,
}

module _ (p : Platform) where
  open p use {Float, lit}

  -- The ranges of the fields of DecisionResponse.
  pub record IsInRange (d : DecisionResponse Float) : Type 0 where
    pub graph_low : AtMost p (lit 0) d.graph_risk_score
    pub graph_high : AtMost p d.graph_risk_score (lit 100)
    pub sequence_low : AtMost p (lit 0) d.sequence_risk_score
    pub sequence_high : AtMost p d.sequence_risk_score (lit 100)
    pub trust_low : AtMost p (lit 0) d.trust_score
    pub trust_high : AtMost p d.trust_score (lit 10_000)

  module _ (event : CallEvent) (verdict : Verdict) (graph : Option (GraphScoreResult Float))
      (sequence : Option (SequenceRiskScore Float)) (trust : Option (TrustScoreResult Float))
      (reason : String) (policies : List String) (es : List (PolicyEvaluation Float))
      (now : ℕ) where
    -- `_response` copies the three scores.
    response-scores :
        {d : DecisionResponse Float}
        → response p event verdict graph sequence trust reason policies es now ≡ ok d
        → (d.graph_risk_score ≡ graph_score p graph)
          × (d.sequence_risk_score ≡ sequence_score p sequence)
          × (d.trust_score ≡ trust_score_of p trust)
    unfolding response
    response-scores {d} h =
        let (c, _, made) =
          >>=-eq-ok (card p event verdict graph sequence trust es now)
            (λ c. ok (decision_of p event verdict graph sequence trust reason policies c now)) h in
        let same = ok-injective made in (rw (← same) refl, rw (← same) refl, rw (← same) refl)

  module _ (engine : ZerraEngine Float) (event : CallEvent) (now : ℕ) (latency : Float) where
    immediate-IsInRange :
        (reason policy : String) {d : DecisionResponse Float}
        → immediate p event reason policy now ≡ ok d
        → IsInRange d
    unfolding immediate graph_score sequence_score trust_score_of
    immediate-IsInRange reason policy h =
        let (g, s, t) =
          response-scores event Verdict.block none none none reason (policy ∷ []) _ now h in
        record {
          graph_low = rw g (AtMost-refl p (lit 0));
          graph_high = rw g (AtMost-lit p 0 100 (omega arith));
          sequence_low = rw s (AtMost-refl p (lit 0));
          sequence_high = rw s (AtMost-lit p 0 100 (omega arith));
          trust_low = rw t (AtMost-refl p (lit 0));
          trust_high = rw t (AtMost-lit p 0 10_000 (omega arith));
        }

    sequence_bounds :
        (identity : Identity Float)
        → AtMost p (lit 0) (sequence_of p engine event now latency identity).sequence_risk_score
          × AtMost p (sequence_of p engine event now latency identity).sequence_risk_score (lit 95)
    unfolding Sequence.score
    sequence_bounds identity = strongest_match_bounds p _ _

    known-IsInRange :
        (identity : Identity Float) {d : DecisionResponse Float}
        → (evaluate_known p engine event identity now latency).1 ≡ ok d
        → IsInRange d
    unfolding evaluate_known decide graph_score sequence_score trust_score_of
    known-IsInRange identity h =
        let (es, _, decided) = >>=-eq-ok (evaluations_of p engine event now latency identity) _ h in
        let (g, s, t) =
          response-scores (enrich p event identity) _
            (some (graph_of p engine event now latency identity))
            (some (sequence_of p engine event now latency identity))
            (some (trust_of p engine event now latency identity)) _ _ es now decided in
        let (graph_low, graph_high) = score_bounds p engine.graph_store (enrich p event identity) in
        let (sequence_low, sequence_high) = sequence_bounds identity in
        let (trust_low, trust_high, _) = process_score p engine.trust_store _ in
        record {
          graph_low = rw g graph_low;
          graph_high = rw g (AtMost-trans p _ _ _ graph_high (AtMost-lit p 90 100 (omega arith)));
          sequence_low = rw s sequence_low;
          sequence_high =
              rw s (AtMost-trans p _ _ _ sequence_high (AtMost-lit p 95 100 (omega arith)));
          trust_low = rw t trust_low;
          trust_high = rw t trust_high;
        }

    -- Whatever the event and the stores hold, the scores of a decision lie in the ranges that its
    -- data contract checks: both risks between 0 and 1, the trust score between 0 and 100.
    pub evaluate_event-IsInRange :
        {d : DecisionResponse Float}
        → (evaluate_event p engine event now latency).1 ≡ ok d
        → IsInRange d
    evaluate_event-IsInRange {d} h =
        elim (Option-cases (Identity.get engine.registry event.identity_id)) [
          | inl unknown ↦
              immediate-IsInRange "unknown identity" "identity-resolution"
                (rw (evaluate_event-unknown p engine event now latency unknown) at h)
          | inr (identity, found) ↦
              known-IsInRange identity
                (rw (evaluate_event-known p engine event now latency identity found) at h)
        ]
