-- ===== src/Policy/Hard.antt =====
-- The rules for revocation, the scope contract and the tenant border, agent/policy/engine.py.
use zerra.Prelude.{
  ℕ, ◌≡◌, String, Bool, true, not, ◌&&◌, Option, some, List, arith, any, str_eq, str_eq_iff, is_nil,
  or_else,
}
use zerra.Prelude.Results.{ok}
use zerra.Platform.{Platform}
use zerra.PolicyModels.{PolicyAction, PolicyEvaluation}
use zerra.Contracts.{CallEvent, Identity, Policy, is_cross_tenant}
use zerra.Graph.{GraphScoreResult}
use zerra.Fnmatch.{fnmatchcase}
use zerra.Policy.{
  evaluate, evaluate_one, outcome, action_of, final_action, is_active, is_agent, revoked_rule,
  scope_rule, tenant_rule,
}
use zerra.Policy.Final.{blocks, evaluate-blocks, final_action-block}

-- An active policy of a rule type is among the policies.
abbrev pub has_rule : {F : Type 0} → String → List (Policy F) → Bool
has_rule {F} rule_type policies =
    any (λ (q : Policy F). is_active q.status && str_eq q.rule_type rule_type) policies

-- An agent or MCP server calls an endpoint that its contract does not list.
abbrev pub is_out_of_scope : {F : Type 0} → Identity F → String → Bool
is_out_of_scope identity endpoint =
    is_agent identity.type
    && not
        (not (is_nil identity.scope_contract) && any (fnmatchcase endpoint) identity.scope_contract)

-- A tenant rule whose action is "block", by name or by default.
abbrev tenant_test : {F : Type 0} → Policy F → Bool
tenant_test q =
    str_eq q.rule_type "cross_tenant_access" && str_eq (or_else q.parameters.action "block") "block"

abbrev pub has_blocking_tenant_rule : {F : Type 0} → List (Policy F) → Bool
has_blocking_tenant_rule {F} policies =
    any (λ (q : Policy F). is_active q.status && tenant_test q) policies

action_of-block :
    (name : String) → str_eq name "block" ≡ true → action_of name ≡ ok PolicyAction.block
unfolding action_of
action_of-block name t = let same : name ≡ "block" = (str_eq_iff _ _).0 t in rw same

module _ (p : Platform) where
  open p use {Float}

  module _ (event : CallEvent) (identity : Identity Float) (trust : Float)
      (graph : Option (GraphScoreResult Float)) (now : ℕ) where
    -- What `_evaluate_one` computes for each of the three rule types.
    outcome-revoked :
        (q : Policy Float)
        → str_eq q.rule_type "identity_revoked" ≡ true
        → outcome p q event identity trust graph ≡ ok (revoked_rule p identity)
    unfolding outcome
    outcome-revoked q t =
        let same : q.rule_type ≡ "identity_revoked" = (str_eq_iff _ _).0 t in rw same

    outcome-scope :
        (q : Policy Float)
        → str_eq q.rule_type "agent_scope_contract" ≡ true
        → outcome p q event identity trust graph ≡ ok (scope_rule p event identity)
    unfolding outcome
    outcome-scope q t =
        let same : q.rule_type ≡ "agent_scope_contract" = (str_eq_iff _ _).0 t in rw same

    outcome-tenant :
        (q : Policy Float)
        → str_eq q.rule_type "cross_tenant_access" ≡ true
        → outcome p q event identity trust graph ≡ tenant_rule p q.parameters event identity
    unfolding outcome
    outcome-tenant q t =
        let same : q.rule_type ≡ "cross_tenant_access" = (str_eq_iff _ _).0 t in rw same

    tenant_one :
        (q : Policy Float) (v : PolicyEvaluation Float)
        → is_cross_tenant event.tenant_id (some identity.tenant_id) ≡ true
        → tenant_test q ≡ true
        → evaluate_one p q event identity trust graph now ≡ ok v
        → blocks v ≡ true
    unfolding evaluate_one tenant_rule
    tenant_one q v h t r =
        let chosen : action_of (or_else q.parameters.action "block") ≡ ok PolicyAction.block =
          action_of-block (or_else q.parameters.action "block") (ground arith) in
        ground (arith, outcome-tenant q (ground arith))

    -- A revoked identity is blocked by every set of policies with an active revocation rule.
    pub revoked_blocks :
        (policies : List (Policy Float)) {es : List (PolicyEvaluation Float)}
        → identity.is_revoked ≡ true
        → has_rule "identity_revoked" policies ≡ true
        → evaluate p policies event identity trust graph now ≡ ok es
        → final_action es ≡ PolicyAction.block
    unfolding evaluate_one revoked_rule
    revoked_blocks policies {es} h rule e = final_action-block es (
        evaluate-blocks p event identity trust graph now
          (λ (q : Policy Float). str_eq q.rule_type "identity_revoked")
          (λ q v t r. ground (arith, outcome-revoked q t)) policies rule e)

    -- An agent outside its scope contract is blocked by an active scope rule.
    pub out_of_scope_blocks :
        (policies : List (Policy Float)) {es : List (PolicyEvaluation Float)}
        → is_out_of_scope identity event.endpoint ≡ true
        → has_rule "agent_scope_contract" policies ≡ true
        → evaluate p policies event identity trust graph now ≡ ok es
        → final_action es ≡ PolicyAction.block
    unfolding evaluate_one scope_rule
    out_of_scope_blocks policies {es} h rule e = final_action-block es (
        evaluate-blocks p event identity trust graph now
          (λ (q : Policy Float). str_eq q.rule_type "agent_scope_contract")
          (λ q v t r. ground (arith, outcome-scope q t)) policies rule e)

    -- A call across the tenant border is blocked by an active tenant rule whose action is "block".
    pub cross_tenant_blocks :
        (policies : List (Policy Float)) {es : List (PolicyEvaluation Float)}
        → is_cross_tenant event.tenant_id (some identity.tenant_id) ≡ true
        → has_blocking_tenant_rule policies ≡ true
        → evaluate p policies event identity trust graph now ≡ ok es
        → final_action es ≡ PolicyAction.block
    unfolding evaluate_one
    cross_tenant_blocks policies {es} h rule e = final_action-block es (
        evaluate-blocks p event identity trust graph now tenant_test
          (λ q v t r. tenant_one q v h t r) policies rule e)
