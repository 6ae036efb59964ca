-- ===== src/Engine/Decision.antt =====
-- ZerraEngine.evaluate, agent/orchestrator/engine.py: the paths for a known and for an unknown identity.
use zerra.Prelude.{
  ℕ, ◌≡◌, refl, String, true, false, not, Option, none, some, List, [], ◌∷◌, map, filter, all,
  is_some, Bool-cases, Option-cases, inl, inr, ◌∙◌, sym,
}
use mathlib.Core.Path.{subst}
use zerra.Prelude.Results.{ok-injective, Result, ok, >>=-eq-ok}
use zerra.Platform.{Platform}
use zerra.PolicyModels.{PolicyAction, PolicyEvaluation}
use zerra.Contracts.{CallEvent, Verdict, is_allow, Identity, DecisionResponse}
use zerra.Identity
use zerra.Graph
use zerra.Graph.{GraphScoreResult}
use zerra.Sequence
use zerra.Sequence.{SequenceRiskScore}
use zerra.Trust
use zerra.Trust.{TrustScoreResult, to_verdict}
use zerra.RiskCards.{build, card_of}
use zerra.Policy.{evaluate, final_action}
use zerra.Policy.Total.{has_valid_parameters, evaluate_total}
use zerra.Engine.{
  ZerraEngine, verdict_of, zone_of, sequence_event, enrich, card, response, decision_of, immediate,
  first_reason, decide, trust_inputs, evaluate_known, evaluate_event,
}

-- What a decision says of itself agrees with its verdict: the flag, the zone, and that exactly the
-- decisions that are no allow carry a risk card.
pub record IsCoherent {F : Type 0} (d : DecisionResponse F) : Type 0 where
  pub flag : d.allowed ≡ is_allow d.verdict
  pub zone : d.zone ≡ zone_of d.verdict
  pub card : is_some d.risk_card ≡ not (is_allow d.verdict)

module _ (p : Platform) where
  open p use {Float}

  module _ (event : CallEvent) (verdict : Verdict) (graph : Option (GraphScoreResult Float))
      (sequence : Option (SequenceRiskScore Float)) (trust : Option (TrustScoreResult Float))
      (reason : String) (policies : List String) (es : List (PolicyEvaluation Float))
      (now : ℕ) where
    card-allow :
        is_allow verdict ≡ true → card p event verdict graph sequence trust es now ≡ ok none
    unfolding card
    card-allow h = rw h

    card-other :
        is_allow verdict ≡ false
        → card p event verdict graph sequence trust es now
          ≡ ok (some (card_of p event verdict graph sequence trust es now))
    unfolding card build
    card-other h = rw h

    -- `_response` returns a coherent decision with the verdict that it is given.
    response_lem :
        (d : DecisionResponse Float) × (response p event verdict graph sequence trust reason
            policies es now
          ≡ ok d)
        × IsCoherent d
        × (d.verdict ≡ verdict)
        × (d.identity_id ≡ event.identity_id)
    unfolding response
    response_lem = elim (Bool-cases (is_allow verdict)) [
      | inl yes_allow ↦ (
        decision_of p event verdict graph sequence trust reason policies none now,
        rw (card-allow yes_allow),
        record { flag = refl; zone = refl; card = rw yes_allow },
        refl,
        refl,
      )
      | inr no_allow ↦ (
        decision_of p event verdict graph sequence trust reason policies
            (some (card_of p event verdict graph sequence trust es now)) now,
        rw (card-other no_allow),
        record { flag = refl; zone = refl; card = rw no_allow },
        refl,
        refl,
      )
    ]

  module _ (engine : ZerraEngine Float) (event : CallEvent) (now : ℕ) (latency : Float) where
    pub evaluate_event-unknown :
        Identity.get engine.registry event.identity_id ≡ none
        → evaluate_event p engine event now latency
          ≡ (engine, immediate p event "unknown identity" "identity-resolution" now)
    unfolding evaluate_event
    evaluate_event-unknown h = rw (h, evaluate_event)

    pub evaluate_event-known :
        (identity : Identity Float)
        → Identity.get engine.registry event.identity_id ≡ some identity
        → evaluate_event p engine event now latency
          ≡ evaluate_known p engine event identity now latency
    unfolding evaluate_event
    evaluate_event-known identity h = rw (h, evaluate_event)

    -- An event of an unknown identity is blocked, with a risk card, and the engine is left as it was.
    pub evaluate_unknown :
        Identity.get engine.registry event.identity_id ≡ none
        → (d : DecisionResponse Float) × (evaluate_event p engine event now latency
            ≡ (engine, ok d))
          × IsCoherent d
          × (d.verdict ≡ Verdict.block)
    unfolding immediate
    evaluate_unknown h =
        let (d, eq, coherent, blocked, _) =
          response_lem event Verdict.block none none none "unknown identity"
            ("identity-resolution" ∷ [])
            (record {
              policy_id = "identity-resolution";
              policy_name = "identity-resolution";
              matched = true;
              action = PolicyAction.block;
              reason = "unknown identity";
              evidence = [];
              evaluated_at = now;
            }
              ∷ [])
            now in
        (d, rw (evaluate_event-unknown h, eq), coherent, blocked)

    -- The scores of an event of a known identity.
    abbrev pub graph_of : Identity Float → GraphScoreResult Float
    graph_of identity = Graph.score p engine.graph_store (enrich p event identity)

    abbrev pub sequence_of : Identity Float → SequenceRiskScore Float
    sequence_of identity =
        (Sequence.score p engine.scorer (sequence_event (enrich p event identity)) now latency).1

    abbrev pub trust_of : Identity Float → TrustScoreResult Float
    trust_of identity =
        (Trust.process p engine.trust_store (
          trust_inputs p identity (enrich p event identity) (graph_of identity)
            (sequence_of identity))).1

    abbrev pub evaluations_of : Identity Float → Result (List (PolicyEvaluation Float))
    evaluations_of identity =
        evaluate p engine.policies (enrich p event identity) identity
          (trust_of identity).trust_score (some (graph_of identity)) now

    -- For a known identity the policies' action decides, and the trust verdict where they allow; the
    -- decision is coherent, and it is made whenever the policies raise nothing.
    evaluate_known_lem :
        (identity : Identity Float) {es : List (PolicyEvaluation Float)}
        → Identity.get engine.registry event.identity_id ≡ some identity
        → evaluations_of identity ≡ ok es
        → (d : DecisionResponse Float) × ((evaluate_event p engine event now latency).1 ≡ ok d)
          × IsCoherent d
          × (d.verdict ≡ verdict_of (final_action es) (to_verdict (trust_of identity).verdict))
    unfolding evaluate_known decide
    evaluate_known_lem identity {es} h e =
        let matched = filter (λ (e : PolicyEvaluation Float). e.matched) es in
        let (d, eq, coherent, verdict, _) =
          response_lem (enrich p event identity)
            (verdict_of (final_action es) (to_verdict (trust_of identity).verdict))
            (some (graph_of identity)) (some (sequence_of identity)) (some (trust_of identity))
            (first_reason p (trust_of identity).evidence matched)
            (map (λ (e : PolicyEvaluation Float). e.policy_id) matched) es now in
        (d, rw (evaluate_event-known identity h, e, eq), coherent, verdict)

    -- Behind every decision for a known identity there are evaluations of the policies that raised
    -- nothing: their final action is the verdict, or the trust verdict where they allow, and the
    -- decision's flag, zone and risk card agree with it.
    pub decided :
        (identity : Identity Float) {d : DecisionResponse Float}
        → Identity.get engine.registry event.identity_id ≡ some identity
        → (evaluate_event p engine event now latency).1 ≡ ok d
        → (es : List (PolicyEvaluation Float)) × (evaluations_of identity ≡ ok es)
          × IsCoherent d
          × (d.verdict ≡ verdict_of (final_action es) (to_verdict (trust_of identity).verdict))
    unfolding evaluate_known
    decided identity {d} h e =
        let (es, evaluated, _) =
          >>=-eq-ok (evaluations_of identity)
            (λ es.
              decide p (enrich p event identity) (graph_of identity) (sequence_of identity)
                (trust_of identity) es now)
            (rw (evaluate_event-known identity h) at e) in
        let (d', eq, coherent, verdict) = evaluate_known_lem identity h evaluated in
        let same : d' ≡ d = ok-injective (sym eq ∙ e) in
        (es, evaluated, subst IsCoherent same coherent, rw (← same) verdict)

    pub evaluate_event_total :
        all has_valid_parameters engine.policies ≡ true
        → (d : DecisionResponse Float) × ((evaluate_event p engine event now latency).1 ≡ ok d)
          × IsCoherent d
    evaluate_event_total known =
        elim (Option-cases (Identity.get engine.registry event.identity_id)) [
          | inl unknown ↦
              let (d, eq, coherent, _) = evaluate_unknown unknown in (d, rw eq, coherent)
          | inr (identity, found) ↦
              let (es, e, _) =
                evaluate_total p (enrich p event identity) identity (trust_of identity).trust_score
                  (some (graph_of identity)) now engine.policies known in
              let (d, eq, coherent, _) = evaluate_known_lem identity found e in (d, eq, coherent)
        ]
