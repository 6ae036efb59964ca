-- ===== src/Examples/Histories.antt =====
-- Windows, registries, simulations and scenario runs on concrete histories.
use zerra.Prelude.{
  ℕ, ◌+◌, ◌≤◌, ◌≡◌, ◌≢◌, refl, true, false, not, ◌||◌, ◌&&◌, none, some, List, [], ◌∷◌, String,
  length, filter, count_if, is_some, arith, All,
}
use zerra.Prelude.Dict.{lookup}
use zerra.Prelude.Results.{ok, is_ok, is_ok-eq}
use zerra.Contracts.{
  Identity, Policy, PolicyStatus, DecisionResponse, is_allow, is_step_up, is_block,
}
use zerra.PolicyModels.{
  PolicySimulationResult, PolicyEvaluation, is_step_up as stops_up, is_block as stops,
}
use zerra.Identity.{Registry, get, revoke, restore, authenticate_token}
use zerra.Identity.Access.{revoke_lem, authenticate-revoke, restore-revoke}
use zerra.Policy.{evaluate_one, outcome, revoked_rule}
use zerra.Policy.Total.{default_policies-known}
use zerra.Policy.Simulation.{
  simulate, simulate_from, simulate_event, simulated_graph, simulated_evaluation, noted,
  tally_evaluation, result_of,
}
use zerra.Policy.Accounts.{simulate_accounts, evaluations, is_match}
use zerra.Sequence.{
  SequenceCallEvent, WindowManager, strongest_match, combine, extract_features, add, violates_scope,
  is_harvesting, looks_exported, first_from,
}
use zerra.Sequence.Windows.{IsValid, EndsWith, add-IsValid, window_of}
use zerra.Sequence.Scores.{strongest_match_high}
use zerra.Metrics.{reset, record_decision}
use zerra.Metrics.Counts.{IsConsistent, record_decision-IsConsistent, reset-IsConsistent}
use zerra.AttackSim.{ScenarioEvent, ScenarioType, ScenarioRunResult, Run, run}
use zerra.AttackSim.Runs.{run_total, run_report, first_flag_from, AreConsistent}
use zerra.Examples.{fixed_point, alice, engine_with}
use zerra.Examples.Program.{own_invoice, allowed}

-- A refused call, at a time in microseconds.
abbrev refused_at : ℕ → SequenceCallEvent
refused_at time = record {
  id = "call-1";
  identity_id = "human-alice";
  timestamp = time;
  endpoint = "/invoices/inv-a-001";
  method = "GET";
  object_id = some "inv-a-001";
  object_type = some "invoice";
  status_code = 403;
  response_fields = [];
  identity_type = "human";
  scope_contract = none;
  params = [];
}

-- A full window of two events.
abbrev full_window : WindowManager
full_window = record {
  max_size = 2;
  ttl = 100;
  windows = ("human-alice", refused_at 50 ∷ refused_at 120 ∷ []) ∷ [];
}

full_window-IsValid : IsValid full_window "human-alice"
full_window-IsValid = record { in_order = ((omega arith, tt), (tt, tt)); bounded = omega arith }

add-IsValid_example :
    let (m', window) = add full_window (refused_at 200) in
    IsValid m' "human-alice"
    × All (λ (e : SequenceCallEvent). 200 ≤ e.timestamp + 100) window.events
    × (window.events ≡ window_of m' "human-alice")
    × EndsWith full_window (refused_at 200) window.events
add-IsValid_example =
    add-IsValid full_window (refused_at 200) (omega arith) full_window-IsValid
      (omega arith, (omega arith, tt))

abbrev refusals : List SequenceCallEvent
refusals = refused_at 10 ∷ refused_at 20 ∷ refused_at 30 ∷ refused_at 40 ∷ []

strongest_match_high_example :
    let f = extract_features fixed_point refusals in
    fixed_point.lt (combine fixed_point (strongest_match fixed_point refusals f) none) 85
    ≡ not (
        violates_scope fixed_point.lower refusals
        || (is_harvesting fixed_point f
            && is_some (first_from (looks_exported fixed_point) 0 refusals)))
strongest_match_high_example = strongest_match_high fixed_point refusals

abbrev registry : Registry ℕ
registry = (engine_with alice).registry

alice_known : get registry "human-alice" ≡ some alice
unfolding get
alice_known = refl

abbrev revoked : Identity ℕ
revoked = record alice { is_revoked = true }

revoked_registry :
    (r' : Registry ℕ) × (revoke registry "human-alice" ≡ ok (r', revoked))
    × (get r' "human-alice" ≡ some revoked)
    × ((other : String) → "human-alice" ≢ other → get r' other ≡ get registry other)
    × (r'.tokens ≡ ("token", "human-alice") ∷ [])
revoked_registry = revoke_lem registry "human-alice" alice alice_known

authenticate-revoke_example :
    (lookup "token" registry.tokens ≡ some "human-alice"
      → authenticate_token revoked_registry.0 "token" ≡ none)
    × (lookup "token" registry.tokens ≢ some "human-alice"
        → authenticate_token revoked_registry.0 "token" ≡ authenticate_token registry "token")
authenticate-revoke_example =
    authenticate-revoke registry "human-alice" {r' = revoked_registry.0} {revoked = revoked} "token"
      revoked_registry.1

restore-revoke_example : restore revoked_registry.0 "human-alice" ≡ ok (registry, alice)
restore-revoke_example =
    restore-revoke registry "human-alice" {r' = revoked_registry.0} {identity = alice}
      {revoked = revoked} alice_known refl revoked_registry.1

abbrev probe : ScenarioEvent
probe = record {
  scenario = ScenarioType.cross_tenant;
  expected_malicious = true;
  event = own_invoice;
}

abbrev clock : ℕ → ℕ × ℕ
clock n = (n, 1)

probe_run :
    (x : Run ℕ × ScenarioRunResult ℕ) × (run fixed_point clock
        (engine_with alice)
        (probe ∷ [])
        (some reset)
      ≡ ok x)
probe_run = is_ok-eq (run fixed_point clock (engine_with alice) (probe ∷ []) (some reset)) (
    run_total fixed_point clock (engine_with alice) (probe ∷ []) (some reset)
      (default_policies-known fixed_point))

run_report_example :
    let (r, s) = probe_run.0 in
    (s.total_calls ≡ 1)
    × (length s.decisions ≡ 1)
    × (s.allowed ≡ count_if (λ (d : DecisionResponse ℕ). is_allow d.verdict) s.decisions)
    × (s.stepped_up ≡ count_if (λ (d : DecisionResponse ℕ). is_step_up d.verdict) s.decisions)
    × (s.blocked ≡ count_if (λ (d : DecisionResponse ℕ). is_block d.verdict) s.decisions)
    × (s.allowed + s.stepped_up + s.blocked ≡ s.total_calls)
    × (s.first_flagged_call ≡ first_flag_from 1 s.decisions)
    × AreConsistent r.metrics
run_report_example =
    run_report fixed_point clock (engine_with alice) (probe ∷ []) (some reset) {r = probe_run.0.0}
      {s = probe_run.0.1} reset-IsConsistent probe_run.1

record_decision-IsConsistent_example :
    IsConsistent (record_decision reset allowed 3 (some true) (some "normal") (some 1))
record_decision-IsConsistent_example =
    record_decision-IsConsistent reset allowed 3 (some true) (some "normal") (some 1)
      reset-IsConsistent

abbrev revocation : Policy ℕ
revocation = record {
  id = "identity-revocation";
  name = "Identity revocation";
  description = "Block revoked identities";
  rule_type = "identity_revoked";
  parameters = record {
    step_up_below = none;
    block_below = none;
    max_distinct_novel_objects = none;
    window_seconds = none;
    action = none;
    target_pattern = none;
    target_method = none;
    condition_has_get = true;
    require_tenant_match = false;
    check = none;
  };
  version = 1;
  status = PolicyStatus.active;
}

simulate_runs :
    is_ok (simulate fixed_point (own_invoice ∷ []) revocation (("human-alice", revoked) ∷ []) 7)
    ≡ true
unfolding simulate simulate_from simulate_event simulated_graph simulated_evaluation noted
    tally_evaluation result_of evaluate_one outcome revoked_rule
simulate_runs = refl

simulated :
    (r : PolicySimulationResult ℕ) × (simulate fixed_point
        (own_invoice ∷ [])
        revocation
        (("human-alice", revoked) ∷ [])
        7
      ≡ ok r)
simulated =
    is_ok-eq (simulate fixed_point (own_invoice ∷ []) revocation (("human-alice", revoked) ∷ []) 7)
      simulate_runs

simulate_accounts_example :
    let r = simulated.0 in
    (es : List (PolicyEvaluation ℕ)) × (evaluations fixed_point revocation
        (("human-alice", revoked) ∷ [])
        7
        []
        (own_invoice ∷ [])
      ≡ ok es)
    × (r.found ≡ filter is_match es)
    × (r.total_events ≡ 1)
    × (r.would_allow + r.would_step_up + r.would_block ≡ r.total_events)
    × (r.would_step_up ≡ count_if (λ (e : PolicyEvaluation ℕ). stops_up e.action) r.found)
    × (r.would_block ≡ count_if (λ (e : PolicyEvaluation ℕ). stops e.action) r.found)
    × (r.matched_events ≡ length r.found)
    × (r.matched_events ≤ r.total_events)
simulate_accounts_example =
    simulate_accounts fixed_point (own_invoice ∷ []) revocation (("human-alice", revoked) ∷ []) 7
      {r = simulated.0} simulated.1
