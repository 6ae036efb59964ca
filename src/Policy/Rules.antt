-- ===== src/Policy/Rules.antt =====
-- The rules of one policy: `_evaluate_one` of agent/policy/engine.py.
use zerra.Prelude.{
  ℕ, String, Bool, true, false, not, ◌&&◌, ◌||◌, Option, none, some, List, [], ◌∷◌, ltb,
  if◌then◌else◌, any, is_nil, str_eq, str_mem, ◌+++◌, show, or_else, is_some,
}
use zerra.Prelude.Dict.{Dict}
use zerra.Prelude.Results.{Result, ok, err, value_error, attribute_error, ◌>>=◌}
use zerra.Graph.{GraphFactor, fan_out, cross_tenant, GraphScoreResult}
use zerra.PolicyModels.{PolicyAction, Evidence, number, whole, text, optional}
use zerra.Platform.{Platform, of_ℕ}
use zerra.Fnmatch.{fnmatchcase}
use zerra.Contracts.{
  is_cross_tenant, CallEvent, Identity, IdentityType, Parameters, Policy, PolicyStatus,
}

-- `PolicyAction(text)`.
unfoldable pub action_of : String → Result PolicyAction
action_of name =
    if str_eq name "allow"
    then ok PolicyAction.allow
    else if str_eq name "step_up"
    then ok PolicyAction.step_up
    else if str_eq name "block"
    then ok PolicyAction.block
    else err (value_error name)

-- `action, matched, reason, evidence` of `_evaluate_one`.
pub record Outcome (F : Type 0) : Type 0 where
  pub action : PolicyAction
  pub matched : Bool
  pub reason : String
  pub evidence : Dict (Evidence F)

abbrev pub is_agent : IdentityType → Bool
is_agent IdentityType.agent = true
is_agent IdentityType.mcp_server = true
is_agent _ = false

abbrev pub is_active : PolicyStatus → Bool
is_active PolicyStatus.active = true
is_active _ = false

-- The first "fan_out" of the factors, or 0.
first_fan_out : List GraphFactor → ℕ
first_fan_out [] = 0
first_fan_out (fan_out n ∷ _) = n
first_fan_out (cross_tenant _ ∷ factors) = first_fan_out factors

module _ (p : Platform) where
  open p use {Float, lit, lt, format2, lower, upper}

  abbrev pub no_match : Outcome Float
  no_match = record {
    action = PolicyAction.allow;
    matched = false;
    reason = "rule did not match";
    evidence = [];
  }

  unfoldable pub revoked_rule : Identity Float → Outcome Float
  revoked_rule identity = record {
    action = PolicyAction.block;
    matched = identity.is_revoked;
    reason = "identity is revoked";
    evidence = [];
  }

  unfoldable pub scope_rule : CallEvent → Identity Float → Outcome Float
  scope_rule event identity = record {
    action = PolicyAction.block;
    matched =
        is_agent identity.type
        && not (
            not (is_nil identity.scope_contract)
            && any (fnmatchcase event.endpoint) identity.scope_contract);
    reason = "agent endpoint is outside scope contract";
    evidence = [];
  }

  unfoldable pub trust_rule : Parameters Float → Float → Result (Outcome Float)
  trust_rule params trust_score = do
    block_below ← or_else params.block_below (ok (of_ℕ p 40))
    step_up_below ← or_else params.step_up_below (ok (of_ℕ p 70))
    ok (record {
      action = if lt trust_score block_below then PolicyAction.block else PolicyAction.step_up;
      matched = lt trust_score step_up_below;
      reason = "trust score " +++ format2 trust_score +++ " below threshold";
      evidence = ("trust_score", number trust_score) ∷ [];
    })

  unfoldable pub novel_rule : Parameters Float → GraphScoreResult Float → Result (Outcome Float)
  unfolding first_fan_out
  novel_rule params graph = do
    let fanout = first_fan_out graph.factors
    maximum ← or_else params.max_distinct_novel_objects (ok 5)
    action ← action_of (or_else params.action "step_up")
    ok (record {
      action = action;
      matched = ltb maximum fanout;
      reason = show fanout +++ " novel objects exceeds " +++ show maximum;
      evidence = ("fan_out", whole fanout) ∷ [];
    })

  unfoldable pub tenant_rule :
      Parameters Float → CallEvent → Identity Float → Result (Outcome Float)
  tenant_rule params event identity = do
    action ← action_of (or_else params.action "block")
    ok (record {
      action = action;
      matched = is_cross_tenant event.tenant_id (some identity.tenant_id);
      reason = "cross-tenant target access";
      evidence =
          ("target_tenant", optional event.tenant_id)
          ∷ ("home_tenant", text identity.tenant_id)
          ∷ [];
    })

  -- The test of a virtual patch's target, with its optional condition on the tenants.
  patch_matches : Parameters Float → CallEvent → Identity Float → Bool
  patch_matches params event identity =
      let method_target = upper (or_else params.target_method "*") in
      let needs_tenants =
        params.require_tenant_match
        || elim params.check [ none ↦ false | some c ↦ str_eq c "cross_tenant_object" ] in
      fnmatchcase event.endpoint (or_else params.target_pattern "*")
      && (str_eq method_target "*" || str_eq (upper event.method) method_target)
      && (if needs_tenants then is_cross_tenant event.tenant_id (some identity.tenant_id) else true)

  unfoldable pub patch_rule : Policy Float → CallEvent → Identity Float → Result (Outcome Float)
  unfolding patch_matches
  patch_rule policy event identity =
      let params = policy.parameters in
      let act_str = lower (or_else params.action "block") in
      if not params.condition_has_get
      then err (attribute_error "get")
      else if patch_matches params event identity
      then ok (record {
        action =
            if str_eq act_str "block"
            then PolicyAction.block
            else if str_eq act_str "step_up"
            then PolicyAction.step_up
            else PolicyAction.allow;
        matched = true;
        reason =
            "Inline virtual patch '" +++ policy.name +++ "' matched " +++ event.method +++ " "
            +++ event.endpoint;
        evidence =
            ("target_pattern", text (or_else params.target_pattern "*"))
            ∷ ("target_method", text (upper (or_else params.target_method "*")))
            ∷ ("action", text act_str)
            ∷ ("virtual_patch_id", text policy.id)
            ∷ [];
      })
      else ok no_match

  -- The chain of `if policy.rule_type == …`.
  unfoldable pub outcome :
      Policy Float
      → CallEvent
      → Identity Float
      → Float
      → Option (GraphScoreResult Float)
      → Result (Outcome Float)
  outcome policy event identity trust_score graph =
      if str_eq policy.rule_type "identity_revoked"
      then ok (revoked_rule identity)
      else if str_eq policy.rule_type "agent_scope_contract"
      then ok (scope_rule event identity)
      else if str_eq policy.rule_type "trust_score_threshold"
      then trust_rule policy.parameters trust_score
      else if str_eq policy.rule_type "novel_object_rate" && is_some graph
      then elim graph [ none ↦ ok no_match | some g ↦ novel_rule policy.parameters g ]
      else if str_eq policy.rule_type "cross_tenant_access"
      then tenant_rule policy.parameters event identity
      else if str_mem policy.rule_type
          ("virtual_patch" ∷ "virtual_patch_block" ∷ "virtual_patch_step_up" ∷ [])
      then patch_rule policy event identity
      else ok no_match
