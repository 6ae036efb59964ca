-- ===== src/Policy.antt =====
-- The runtime policies, agent/policy/engine.py and agent/policy/models.py: the rules of one policy,
-- the evaluation of all active ones, and the action that wins.
mod Rules
pub mod Final
pub mod Hard
pub mod Total
pub mod Simulation
pub mod Accounts
unfoldable pub use Rules.*
use zerra.Prelude.{
  ℕ, String, Bool, true, false, not, ◌&&◌, ◌||◌, Option, none, some, List, [], ◌∷◌, ◌++◌, map, ltb,
  if◌then◌else◌, any, filter, length, is_nil, str_eq, str_mem, ◌+++◌, show, or_else, is_some,
}
use zerra.Prelude.Dict.{Dict}
use zerra.Prelude.Results.{Result, ok, err, value_error, ◌>>=◌}
use zerra.Graph.{GraphFactor, fan_out, cross_tenant, GraphScoreResult}
use zerra.PolicyModels.{
  PolicyAction, Evidence, number, whole, text, optional, PolicyEvaluation, is_block, is_step_up,
}
use zerra.Platform.{Platform, of_ℕ}
use zerra.Fnmatch.{fnmatchcase}
use zerra.Contracts.{
  is_cross_tenant, CallEvent, Identity, IdentityType, Parameters, Policy, PolicyStatus,
}

module _ (p : Platform) where
  open p use {Float}

  abbrev evaluation_of : Policy Float → ℕ → Outcome Float → PolicyEvaluation Float
  evaluation_of policy now o = record {
    policy_id = policy.id;
    policy_name = policy.name;
    matched = o.matched;
    action = o.action;
    reason = if o.matched then o.reason else "rule did not match";
    evidence = if o.matched then o.evidence else [];
    evaluated_at = now;
  }

  -- `_evaluate_one`, at the time `now`.
  unfoldable pub evaluate_one :
      Policy Float
      → CallEvent
      → Identity Float
      → Float
      → Option (GraphScoreResult Float)
      → ℕ
      → Result (PolicyEvaluation Float)
  evaluate_one policy event identity trust_score graph now = do
    o ← outcome p policy event identity trust_score graph
    ok (evaluation_of policy now o)

  -- `PolicyEngine.evaluate`: the active policies, in order; a ValueError of one ends it.
  unfoldable pub evaluate :
      List (Policy Float)
      → CallEvent
      → Identity Float
      → Float
      → Option (GraphScoreResult Float)
      → ℕ
      → Result (List (PolicyEvaluation Float))
  evaluate [] event identity trust_score graph now = ok []
  evaluate (policy ∷ policies) event identity trust_score graph now =
      let rest = evaluate policies event identity trust_score graph now in
      if is_active policy.status
      then (do e ← evaluate_one policy event identity trust_score graph now; es ← rest; ok (e ∷ es))
      else rest

module _ {F : Type 0} where
  matched_actions : List (PolicyEvaluation F) → List PolicyAction
  matched_actions evaluations =
      map (λ (e : PolicyEvaluation F). e.action)
        (filter (λ (e : PolicyEvaluation F). e.matched) evaluations)

  unfoldable pub final_action : List (PolicyEvaluation F) → PolicyAction
  unfolding matched_actions
  final_action evaluations =
      if any is_block (matched_actions evaluations)
      then PolicyAction.block
      else if any is_step_up (matched_actions evaluations)
      then PolicyAction.step_up
      else PolicyAction.allow

  unfoldable pub add_policy : List (Policy F) → Policy F → List (Policy F)
  add_policy policies policy = policies ++ policy ∷ []

  remove_policy : List (Policy F) → String → List (Policy F) × Bool
  remove_policy policies policy_id =
      let kept = filter (λ (q : Policy F). not (str_eq q.id policy_id)) policies in
      (kept, ltb (length kept) (length policies))

  list_policies : List (Policy F) → Option (PolicyStatus → Bool) → List (Policy F)
  list_policies policies none = policies
  list_policies policies (some is_status) = filter (λ (q : Policy F). is_status q.status) policies

-- `default_policies`.
unfoldable pub default_policies : (p : Platform) → List (Policy p.Float)
default_policies p =
    builtin "identity-revocation" "Identity revocation" "Block revoked identities"
      "identity_revoked" none_set
    ∷ builtin "agent-scope-contract" "Agent scope contract" "Block out-of-scope agent calls"
        "agent_scope_contract" none_set
    ∷ builtin "trust-score-threshold" "Trust score threshold" "Escalate low trust"
        "trust_score_threshold"
        (record none_set {
          step_up_below = some (ok (of_ℕ p 70));
          block_below = some (ok (of_ℕ p 40));
        })
    ∷ builtin "novel-object-rate" "Novel object rate" "Escalate broad object access"
        "novel_object_rate"
        (record none_set {
          max_distinct_novel_objects = some (ok 5);
          window_seconds = some (ok 60);
          action = some "step_up";
        })
    ∷ builtin "cross-tenant-access" "Cross tenant access" "Block cross-tenant object access"
        "cross_tenant_access" (record none_set { action = some "block" })
    ∷ []
  where
    none_set : Parameters p.Float
    none_set = record {
      step_up_below = none;
      block_below = none;
      max_distinct_novel_objects = none;
      window_seconds = none;
      action = none;
      target_pattern = none;
      target_method = none;
      condition_has_get = true;
      require_tenant_match = false;
      check = none;
    }

    builtin : String → String → String → String → Parameters p.Float → Policy p.Float
    builtin id name description rule_type parameters = record {
      id = id;
      name = name;
      description = description;
      rule_type = rule_type;
      parameters = parameters;
      version = 1;
      status = PolicyStatus.active;
    }
