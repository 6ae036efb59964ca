-- ===== src/Engine/Verdicts.antt =====
-- ZerraEngine.evaluate, agent/orchestrator/engine.py: what the verdict on a known identity depends on.
use zerra.Prelude.{
  ℕ, ◌≡◌, refl, ap, ◌∙◌, ◌↔◌, Bool, true, false, not, ◌&&◌, ◌||◌, some, List, arith, any,
  if◌then◌else◌,
}
use zerra.Prelude.Results.{ok}
use zerra.Platform.{Platform}
use zerra.PolicyModels.{PolicyAction, PolicyEvaluation}
use zerra.Contracts.{CallEvent, Verdict, is_allow, is_block, Identity, DecisionResponse}
use zerra.Identity
use zerra.Trust.{TrustVerdict, to_verdict}
use zerra.Trust.Verdicts.{process_verdict}
use zerra.Policy.Final.{blocks, steps_up, final_action_lem}
use zerra.Engine.{ZerraEngine, verdict_of, evaluate_event, enrich, trust_inputs}
use zerra.Engine.Decision.{decided, evaluations_of, trust_of, graph_of, sequence_of}

-- The verdict that policies and trust come to, by what the matched policies ask for.
block_case :
    (blocked stepped : Bool) (trust : TrustVerdict)
    → let verdict =
        verdict_of
          (if blocked
            then PolicyAction.block
            else if stepped
            then PolicyAction.step_up
            else PolicyAction.allow)
          (to_verdict trust) in
      (is_block verdict ≡ (blocked || (not stepped && is_block (to_verdict trust))))
      × (is_allow verdict ≡ (not blocked && (not stepped && is_allow (to_verdict trust))))
unfolding verdict_of
block_case true stepped trust = (refl, refl)
block_case false true trust = (refl, refl)
block_case false false trust = (refl, refl)

trust-is_block :
    (trust : TrustVerdict) (low : Bool)
    → (trust ≡ TrustVerdict.block) ↔ (low ≡ false)
    → is_block (to_verdict trust) ≡ not low
trust-is_block TrustVerdict.allow low h = ground arith
trust-is_block TrustVerdict.step_up low h = ground arith
trust-is_block TrustVerdict.block low h = ground arith

trust-is_allow :
    (trust : TrustVerdict) (low : Bool)
    → (trust ≡ TrustVerdict.allow) ↔ (low ≡ true)
    → is_allow (to_verdict trust) ≡ low
trust-is_allow TrustVerdict.allow low h = ground arith
trust-is_allow TrustVerdict.step_up low h = ground arith
trust-is_allow TrustVerdict.block low h = ground arith

module _ (p : Platform) (engine : ZerraEngine p.Float) (event : CallEvent) (now : ℕ)
    (latency : p.Float) where
  open p use {Float, lit, lt}

  -- Every decision for a known identity comes with evaluations of the active policies. It blocks
  -- exactly if a matched policy blocks, or none asks to step up and one of the two risks is at least
  -- 0.85; it allows exactly if no matched policy asks for more and both risks are below 0.5. So a
  -- matched policy that asks to step up lets a call of the highest risk through to the step-up.
  pub decided_verdict :
      (identity : Identity Float) {d : DecisionResponse Float}
      → Identity.get engine.registry event.identity_id ≡ some identity
      → (evaluate_event p engine event now latency).1 ≡ ok d
      → let g = (graph_of p engine event now latency identity).graph_risk_score in
        let s = (sequence_of p engine event now latency identity).sequence_risk_score in
        (es : List (PolicyEvaluation Float)) × (evaluations_of p engine event now latency identity
          ≡ ok es)
        × (is_block d.verdict
            ≡ (any blocks es || (not (any steps_up es) && not (lt g (lit 85) && lt s (lit 85)))))
        × (is_allow d.verdict
            ≡ (not (any blocks es) && (not (any steps_up es) && (lt g (lit 50) && lt s (lit 50)))))
  decided_verdict identity {d} known e =
      let (es, evaluated, _, verdict) = decided p engine event now latency identity known e in
      let trust = (trust_of p engine event now latency identity).verdict in
      let (block, allow) = block_case (any blocks es) (any steps_up es) trust in
      let cases = process_verdict p engine.trust_store (
        trust_inputs p identity (enrich p event identity)
          (graph_of p engine event now latency identity)
          (sequence_of p engine event now latency identity)) in
      let same =
        verdict
        ∙ ap (λ (a : PolicyAction). verdict_of a (to_verdict trust)) (final_action_lem es) in
      (
        es,
        evaluated,
        ap (λ (v : Verdict). is_block v) same
            ∙ block
            ∙ ap (λ (b : Bool). any blocks es || (not (any steps_up es) && b))
                (trust-is_block trust _ cases.0),
        ap (λ (v : Verdict). is_allow v) same
            ∙ allow
            ∙ ap (λ (b : Bool). not (any blocks es) && (not (any steps_up es) && b))
                (trust-is_allow trust _ cases.1),
      )
