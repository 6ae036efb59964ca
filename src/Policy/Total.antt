-- ===== src/Policy/Total.antt =====
-- PolicyEngine.evaluate, agent/policy/engine.py: which policies are evaluated, and what may raise.
use zerra.Prelude.{
  ℕ, ◌≡◌, refl, ap, String, Bool, true, Option, none, some, List, [], ◌∷◌, arith, map, filter, all,
  Bool-cases, inl, inr, or_else, ◌&&◌,
}
use zerra.Prelude.Results.{Result, ok, is_ok, is_ok-eq}
use zerra.Platform.{Platform, of_ℕ}
use zerra.PolicyModels.{PolicyEvaluation}
use zerra.Contracts.{CallEvent, Identity, Policy}
use zerra.Graph.{GraphScoreResult}
use zerra.Policy.{
  evaluate, evaluate_one, outcome, trust_rule, patch_rule, novel_rule, tenant_rule, action_of,
  is_active, default_policies, evaluation_of,
}

-- The parameter `action` is missing, or names an action.
abbrev pub has_known_action : {F : Type 0} → Policy F → Bool
has_known_action q = elim q.parameters.action [ none ↦ true | some name ↦ is_ok (action_of name) ]

-- The number is missing, or its conversion raises nothing.
abbrev converts {ℓ} : {V : Type ℓ} → Option (Result V) → Bool
converts none = true
converts (some r) = is_ok r

-- What the rules read out of the parameters raises nothing.
abbrev pub has_valid_parameters : {F : Type 0} → Policy F → Bool
has_valid_parameters q =
    has_known_action q
    && (converts q.parameters.step_up_below
        && (converts q.parameters.block_below
            && (converts q.parameters.max_distinct_novel_objects
                && q.parameters.condition_has_get)))

action_block : is_ok (action_of "block") ≡ true
unfolding action_of
action_block = refl

action_step_up : is_ok (action_of "step_up") ≡ true
unfolding action_of
action_step_up = refl

action_or_default-is_ok :
    {F : Type 0} (q : Policy F) (default : String)
    → is_ok (action_of default) ≡ true
    → has_known_action q ≡ true
    → is_ok (action_of (or_else q.parameters.action default)) ≡ true
action_or_default-is_ok q default d h = ground arith

converts_or_default :
    {V : Type 0} (o : Option (Result V)) (default : V)
    → converts o ≡ true
    → is_ok (or_else o (ok default)) ≡ true
converts_or_default o default h = ground arith

module _ (p : Platform) where
  open p use {Float}

  module _ (event : CallEvent) (identity : Identity Float) (trust : Float)
      (graph : Option (GraphScoreResult Float)) (now : ℕ) where
    trust_rule-is_ok :
        (q : Policy Float)
        → has_valid_parameters q ≡ true
        → is_ok (trust_rule p q.parameters trust) ≡ true
    unfolding trust_rule
    trust_rule-is_ok q h =
        let (b, eb) =
          is_ok-eq _ (converts_or_default q.parameters.block_below (of_ℕ p 40) (ground arith)) in
        let (s, es) =
          is_ok-eq _ (converts_or_default q.parameters.step_up_below (of_ℕ p 70) (ground arith)) in
        rw (eb, es) refl

    novel_rule-is_ok :
        (q : Policy Float) (g : GraphScoreResult Float)
        → has_valid_parameters q ≡ true
        → is_ok (novel_rule p q.parameters g) ≡ true
    unfolding novel_rule
    novel_rule-is_ok q g h =
        let (m, em) =
          is_ok-eq _
            (converts_or_default q.parameters.max_distinct_novel_objects 5 (ground arith)) in
        let (a, ea) =
          is_ok-eq _ (action_or_default-is_ok q "step_up" action_step_up (ground arith)) in
        rw (em, ea) refl

    tenant_rule-is_ok :
        (q : Policy Float)
        → has_valid_parameters q ≡ true
        → is_ok (tenant_rule p q.parameters event identity) ≡ true
    unfolding tenant_rule
    tenant_rule-is_ok q h =
        let (a, ea) = is_ok-eq _ (action_or_default-is_ok q "block" action_block (ground arith)) in
        rw ea refl

    patch_rule-is_ok :
        (q : Policy Float)
        → has_valid_parameters q ≡ true
        → is_ok (patch_rule p q event identity) ≡ true
    unfolding patch_rule
    patch_rule-is_ok q h = ground arith

    outcome-is_ok :
        (q : Policy Float)
        → has_valid_parameters q ≡ true
        → is_ok (outcome p q event identity trust graph) ≡ true
    unfolding outcome
    outcome-is_ok q h =
        elim graph as (λ graph. is_ok (outcome p q event identity trust graph) ≡ true) [
          | none ↦ ground (arith, trust_rule-is_ok q h, tenant_rule-is_ok q h, patch_rule-is_ok q h)
          | some g ↦ ground (
            arith,
            trust_rule-is_ok q h,
            novel_rule-is_ok q g h,
            tenant_rule-is_ok q h,
            patch_rule-is_ok q h,
          )
        ]

    -- Nothing is raised if every policy has valid parameters: each active policy is evaluated once,
    -- in order.
    pub evaluate_total :
        (policies : List (Policy Float))
        → all has_valid_parameters policies ≡ true
        → (es : List (PolicyEvaluation Float)) × (evaluate p policies event identity trust graph now
            ≡ ok es)
          × (map (λ (e : PolicyEvaluation Float). e.policy_id) es
              ≡ map
                  (λ (q : Policy Float). q.id)
                  (filter (λ (q : Policy Float). is_active q.status) policies))
    unfolding evaluate evaluate_one
    evaluate_total [] h = ([], refl, refl)
    evaluate_total (q ∷ policies) h =
        let (o, eo) =
          is_ok-eq (outcome p q event identity trust graph) (outcome-is_ok q (ground arith)) in
        let (es, ev, ids) = evaluate_total policies (ground arith) in
        elim (Bool-cases (is_active q.status)) [
          | inl on ↦ (evaluation_of p q now o ∷ es, rw (on, eo, ev), rw (on) (ap (◌∷◌ q.id) ids))
          | inr off ↦ (es, rw off ev, rw off ids)
        ]

  -- The default policies have valid parameters.
  pub default_policies-known : all has_valid_parameters (default_policies p) ≡ true
  unfolding default_policies action_of
  default_policies-known = refl
