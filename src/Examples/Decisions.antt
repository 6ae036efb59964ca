-- ===== src/Examples/Decisions.antt =====
-- Decisions of the engine on concrete events.
use zerra.Prelude.{
  any, ◌||◌, ◌&&◌, not, ℕ, ◌≡◌, ◌≢◌, refl, String, true, false, none, some, [], str_eq_iff, show,
  List, arith,
}
use zerra.Prelude.Dict.{lookup, get_or}
use zerra.Prelude.Results.{ok}
use zerra.Contracts.{Verdict, DecisionResponse, CallEvent, Identity, is_cross_tenant}
use zerra.Identity
use zerra.Policy.{default_policies}
use zerra.Policy.Total.{default_policies-known}
use zerra.Policy.Hard.{is_out_of_scope}
use zerra.Fnmatch.{fnmatchcase}
use zerra.PolicyModels.{PolicyEvaluation}
use zerra.Sequence.Windows.{window_of}
use zerra.Sequence.{init_scorer}
use zerra.Engine.{evaluate_event}
use zerra.Engine.Decision.{IsCoherent, evaluate_event_total, evaluations_of, graph_of, sequence_of}
use zerra.Engine.Verdicts.{decided_verdict}
use zerra.Policy.Final.{blocks, steps_up}
use zerra.Engine.Hard.{revoked-blocked, out_of_scope-blocked, cross_tenant-blocked}
use zerra.Engine.Bounds.{IsInRange, evaluate_event-IsInRange}
use zerra.Engine.Isolation.{evaluate_event_others}
use zerra.MockData.{Invoice, init_data, get_invoice}
use zerra.MockData.Access.{read_needs_access}
use zerra.Examples.{fixed_point, alice, agent, engine_with, call}
use zerra.Examples.Program.{own_invoice, allowed, allowed_run}

abbrev first_invoice : Invoice ℕ
first_invoice = record {
  id = "inv-a-001";
  tenant_id = "tenant-a";
  customer_name = "Customer A1";
  amount = 113_725;
  status = "paid";
  ssn = "123-45-0001";
  salary = 5_120_000;
  internal_notes = "Internal note for tenant-a invoice 1";
}

first_read : get_invoice (init_data fixed_point) "inv-a-001" allowed ≡ ok first_invoice
unfolding get_invoice init_data show
first_read = refl

alice_known : Identity.get (engine_with alice).registry "human-alice" ≡ some alice
unfolding Identity.get
alice_known = refl

read_needs_access_example :
    (identity : Identity ℕ) × (Identity.get (engine_with alice).registry "human-alice"
      ≡ some identity)
    × (identity.is_revoked ≡ false)
    × (is_out_of_scope identity "/invoices/inv-a-001" ≡ false)
    × (is_cross_tenant (some "tenant-a") (some identity.tenant_id) ≡ false)
    × (lookup "inv-a-001" (init_data fixed_point).invoices ≡ some first_invoice)
unfolding default_policies
read_needs_access_example =
    read_needs_access fixed_point (engine_with alice) own_invoice 7 1 (init_data fixed_point)
      "inv-a-001" {d = allowed} {i = first_invoice} refl refl refl allowed_run first_read

-- Every event gets a decision from the engine of the demo.
abbrev revoked_alice : Identity ℕ
revoked_alice = record alice { is_revoked = true }

total_example :
    (d : DecisionResponse ℕ) × ((evaluate_event fixed_point
        (engine_with revoked_alice)
        own_invoice
        7
        1).1
      ≡ ok d)
    × IsCoherent d
total_example =
    evaluate_event_total fixed_point (engine_with revoked_alice) own_invoice 7 1
      (default_policies-known fixed_point)

revoked-blocked_example : total_example.0.verdict ≡ Verdict.block
unfolding default_policies Identity.get
revoked-blocked_example =
    revoked-blocked fixed_point (engine_with revoked_alice) own_invoice 7 1 revoked_alice
      {d = total_example.0} refl refl refl total_example.1

-- Alice asks for an invoice of another tenant.
abbrev foreign : CallEvent
foreign = call "human-alice" "/invoices/inv-b-001" (some "inv-b-001") (some "tenant-b")

foreign_run :
    (d : DecisionResponse ℕ) × ((evaluate_event fixed_point (engine_with alice) foreign 7 1).1
      ≡ ok d)
    × IsCoherent d
foreign_run =
    evaluate_event_total fixed_point (engine_with alice) foreign 7 1
      (default_policies-known fixed_point)

cross_tenant-blocked_example : foreign_run.0.verdict ≡ Verdict.block
unfolding default_policies
cross_tenant-blocked_example =
    cross_tenant-blocked fixed_point (engine_with alice) foreign 7 1 alice {d = foreign_run.0}
      alice_known refl refl foreign_run.1

-- The agent calls an endpoint that its contract does not list.
abbrev admin_call : CallEvent
admin_call = call "finance-agent" "/admin/users" none (some "tenant-a")

admin_run :
    (d : DecisionResponse ℕ) × ((evaluate_event fixed_point (engine_with agent) admin_call 7 1).1
      ≡ ok d)
    × IsCoherent d
admin_run =
    evaluate_event_total fixed_point (engine_with agent) admin_call 7 1
      (default_policies-known fixed_point)

out_of_scope-blocked_example : admin_run.0.verdict ≡ Verdict.block
unfolding default_policies fnmatchcase Identity.get
out_of_scope-blocked_example =
    out_of_scope-blocked fixed_point (engine_with agent) admin_call 7 1 agent {d = admin_run.0} refl
      refl refl admin_run.1

decided_verdict_example :
    let g = (graph_of fixed_point (engine_with alice) own_invoice 7 1 alice).graph_risk_score in
    let s =
      (sequence_of fixed_point (engine_with alice) own_invoice 7 1 alice).sequence_risk_score in
    (es : List (PolicyEvaluation ℕ)) × (evaluations_of fixed_point
        (engine_with alice)
        own_invoice
        7
        1
        alice
      ≡ ok es)
    × (false ≡ (
        any blocks es
        || (not (any steps_up es) && not (fixed_point.lt g 85 && fixed_point.lt s 85))))
    × (true ≡ (
        not (any blocks es)
        && (not (any steps_up es) && (fixed_point.lt g 50 && fixed_point.lt s 50))))
decided_verdict_example =
    decided_verdict fixed_point (engine_with alice) own_invoice 7 1 alice {d = allowed} alice_known
      allowed_run

abbrev billing : String
billing = "billing-service"

not_billing : own_invoice.identity_id ≢ billing
not_billing h = grind (arith, str_eq_iff own_invoice.identity_id billing)

evaluate_event_others_example :
    let engine' = (evaluate_event fixed_point (engine_with alice) own_invoice 7 1).0 in
    (get_or "billing-service" [] engine'.graph_store ≡ [])
    × (window_of engine'.scorer.windows "billing-service" ≡ [])
    × (lookup "billing-service" engine'.trust_store ≡ none)
    × (engine'.registry ≡ (engine_with alice).registry)
    × (engine'.policies ≡ default_policies fixed_point)
unfolding init_scorer
evaluate_event_others_example =
    evaluate_event_others fixed_point (engine_with alice) own_invoice 7 1 alice "billing-service"
      alice_known refl not_billing

evaluate_event-IsInRange_example : IsInRange fixed_point allowed
evaluate_event-IsInRange_example =
    evaluate_event-IsInRange fixed_point (engine_with alice) own_invoice 7 1 {d = allowed}
      allowed_run
