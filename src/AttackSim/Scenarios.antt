-- ===== src/AttackSim/Scenarios.antt =====
-- The scenarios of agent/attack_sim/scenarios.py, as the events that they feed to the engine.
use Prim.Native.Nat.{◌%◌}
use zerra.Prelude.{
  ℕ, zero, suc, ◌+◌, ◌-◌, ◌*◌, String, Bool, true, false, Option, none, some, List, [], ◌∷◌, map,
  leb, if◌then◌else◌, get_elem?, ◌+++◌, show,
}
use zerra.Prelude.Results.{Result, ok, err, index_error, ◌>>=◌}
use zerra.Contracts.{IdentityType}
use zerra.MockData.{pad3}
use zerra.AttackSim.{ScenarioType, scenario_value, ScenarioEvent}

-- 2026-01-01 12:00 UTC in microseconds.
abbrev start_time : ℕ
start_time = 1_767_268_800_000_000

abbrev seconds : ℕ → ℕ
seconds n = start_time + n * 1_000_000

-- `range(1, n + 1)`.
numbers_from : ℕ → ℕ → List ℕ
numbers_from i zero = []
numbers_from i (suc n) = i ∷ numbers_from (i + 1) n

-- `_event`.
scenario_event :
    ScenarioType
    → Bool
    → ℕ
    → String
    → String
    → Option String
    → ℕ
    → String
    → ℕ
    → List String
    → ScenarioEvent
scenario_event scenario malicious call identity endpoint object_id at tenant status sensitive =
    record {
      scenario = scenario;
      expected_malicious = malicious;
      event = record {
        id = scenario_value scenario +++ "-" +++ show call;
        identity_id = identity;
        identity_type = IdentityType.human;
        timestamp = at;
        endpoint = endpoint;
        method = "GET";
        object_id = object_id;
        object_type = some "invoice";
        tenant_id = some tenant;
        home_tenant_id = none;
        status_code = status;
        response_fields = [];
        sensitive_fields_touched = sensitive;
        scope_contract = none;
        metadata = [];
      };
    }

-- A GET of an invoice of tenant a, by the invoice's number.
invoice_call : ScenarioType → Bool → ℕ → String → ℕ → ℕ → List String → ScenarioEvent
unfolding scenario_event
invoice_call scenario malicious call identity number at sensitive =
    scenario_event scenario malicious call identity ("/invoices/inv-a-" +++ pad3 number)
      (some ("inv-a-" +++ pad3 number)) at "tenant-a" 200 sensitive

normal_repeating_user_traffic : String → ℕ → List ScenarioEvent
unfolding invoice_call numbers_from
normal_repeating_user_traffic identity_id n_calls =
    map
      (λ (i : ℕ).
        invoice_call ScenarioType.normal false i identity_id (i % 3 + 1) (seconds (i * 30)) [])
      (numbers_from 1 n_calls)

fast_invoice_enumeration : String → ℕ → List ScenarioEvent
unfolding invoice_call numbers_from
fast_invoice_enumeration identity_id n_calls =
    map
      (λ (i : ℕ).
        invoice_call ScenarioType.fast_enumeration true i identity_id i (seconds i)
          (if leb 5 i then "ssn" ∷ [] else []))
      (numbers_from 1 n_calls)

abbrev gaps : List ℕ
gaps = 0 ∷ 9 ∷ 17 ∷ 24 ∷ 30 ∷ 35 ∷ 39 ∷ 42 ∷ 44 ∷ 45 ∷ []

slow_calls : String → List ℕ → Result (List ScenarioEvent)
unfolding invoice_call
slow_calls identity_id [] = ok []
slow_calls identity_id (i ∷ is) = elim (get_elem? gaps (i - 1)) [
  | none ↦ err index_error
  | some gap ↦ slow_calls identity_id is >>= λ events. ok (
      invoice_call ScenarioType.slow_mutated_enumeration true i identity_id i (seconds gap)
        (if leb 5 i then "salary" ∷ [] else [])
      ∷ events)
]

-- More than ten calls run out of gaps: IndexError.
pub slow_mutated_enumeration : String → ℕ → Result (List ScenarioEvent)
unfolding slow_calls numbers_from
slow_mutated_enumeration identity_id n_calls = slow_calls identity_id (numbers_from 1 n_calls)

pub cross_tenant_access : String → List ScenarioEvent
unfolding scenario_event
cross_tenant_access identity_id =
    scenario_event ScenarioType.cross_tenant true 1 identity_id "/invoices/inv-a-001"
      (some "inv-a-001") start_time "tenant-a" 200 []
    ∷ scenario_event ScenarioType.cross_tenant true 2 identity_id "/invoices/inv-b-001"
        (some "inv-b-001") (seconds 2) "tenant-b" 200 []
    ∷ []

agent_scope_violation : String → List ScenarioEvent
unfolding scenario_event
agent_scope_violation identity_id =
    scenario_event ScenarioType.scope_violation true 1 identity_id "/admin/export" none start_time
      "tenant-a" 200 []
    ∷ []

unfoldable pub credential_probing : String → ℕ → List ScenarioEvent
unfolding scenario_event numbers_from
credential_probing identity_id n_calls =
    map
      (λ (i : ℕ).
        scenario_event ScenarioType.credential_probing true i identity_id "/invoices/login" none
          (seconds i) "tenant-a" 401 [])
      (numbers_from 1 n_calls)
