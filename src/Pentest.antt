-- ===== src/Pentest.antt =====
-- The penetration tests' models and tools, agent/pentest/agent_types.py and tools.py. What the
-- target answers is a parameter, given the requests before; the metadata of events, the headers
-- and the times are left out, and a generated identifier is a parameter.
pub mod Skills
pub mod Phases
pub mod Assessments
pub mod Ledger
pub mod Surface
pub mod Engagement
pub mod Streams
use Prim.Native.String
use Prim.Native.Char.{code}
use zerra.Prelude.{
  strip_slashes, ℕ, ◌+◌, String, Bool, true, false, not, ◌&&◌, ◌||◌, Option, none, some, List, [],
  ◌∷◌, ◌++◌, if◌then◌else◌, ◌==◌, ◌+++◌, str_eq, str_mem, is_empty, starts_with, occurs_in, show,
  length, find, first_chars, is_some,
}
use zerra.Prelude.Results.{Error, Result, err, ok}
use zerra.Prelude.Effects.{Action, return, raise, ◌>>=◌, ◌>>◌}

pub data ClosureState : Type 0 where
  confirmed ruled_out open_proof_gap : ClosureState

pub data Severity : Type 0 where
  critical high medium low info : Severity

-- `severity.value.upper()`.
abbrev pub severity_upper : Severity → String
severity_upper Severity.critical = "CRITICAL"
severity_upper Severity.high = "HIGH"
severity_upper Severity.medium = "MEDIUM"
severity_upper Severity.low = "LOW"
severity_upper Severity.info = "INFO"

pub data CoverageOutcome : Type 0 where
  passed vulnerable needs_follow_up not_testable : CoverageOutcome

pub record PoCArtifact : Type 0 where
  pub code : String
  pub target_endpoint : String
  pub expected_indicator : String
  pub actual_indicator : String
  pub http_status_code : ℕ
  pub response_snippet : String
  pub verified : Bool

pub record CounterevidenceAnalysis : Type 0 where
  pub argument_against : String
  pub assumptions : List String
  pub why_it_matters : String
  pub confidence : String

pub record GatewayVirtualPatch : Type 0 where
  pub rule_name : String
  pub target_endpoint_pattern : String
  pub target_method : String
  pub action : String
  pub description : String
  pub status : String

pub record VulnerabilityFinding : Type 0 where
  pub id : String
  pub job_id : String
  pub title : String
  pub owasp_id : String
  pub cwe : String
  pub severity : Severity
  pub closure_state : ClosureState
  pub endpoint : String
  pub method : String
  pub description : String
  pub technical_analysis : String
  pub poc : PoCArtifact
  pub counterevidence : CounterevidenceAnalysis
  pub remediation_advice : String
  pub code_fix_before : Option String
  pub code_fix_after : Option String
  pub virtual_patch : Option GatewayVirtualPatch

pub record CoverageRecord : Type 0 where
  pub surface : String
  pub method : String
  pub risk_area : String
  pub outcome : CoverageOutcome
  pub evidence : String

pub record PentestEvent : Type 0 where
  pub event_type : String
  pub agent_name : String
  pub message : String

pub record PentestScanConfig : Type 0 where
  pub job_id : String
  pub target_url : String
  -- `config.mode.value.upper()`.
  pub mode_name : String
  pub request_budget : ℕ
  pub enabled_skills : List String
  pub known_endpoints : List String
  pub openapi_spec : Option String

pub record Response : Type 0 where
  pub status_code : ℕ
  pub body : String

pub record Request : Type 0 where
  pub id : String
  pub url : String
  pub method : String

-- A route of a parsed specification.
pub record Endpoint : Type 0 where
  pub path : String
  pub method : String
  pub summary : String

pub record ParsedApiSpec : Type 0 where
  pub title : String
  pub endpoints : List Endpoint

-- The target, the parser of specifications and its probes, and the case mapping. A request fails
-- where its URL has no known scheme; every other failure is a response with status 0.
pub record Target (P : Type 0) : Type 0 where
  pub respond : List Request → Request → Result Response
  pub parse_openapi_spec : String → Result ParsedApiSpec
  pub generate_contract_fuzz_probes : Endpoint → List P
  pub upper : String → String
  pub lower : String → String
  pub uuid : ℕ → String
  pub message : Error → String

-- PentestToolBox and PentestOrchestrator: the ledgers, the requests, and the events so far.
pub record Pentest (P : Type 0) : Type 0 where
  pub coverage_ledger : List CoverageRecord
  pub findings_ledger : List VulnerabilityFinding
  pub request_history : List Request
  pub events : List PentestEvent
  pub status : String
  pub parsed_spec : Option ParsedApiSpec
  pub contract_probes : List P
  -- The local variable `discovered_endpoints`: its paths.
  pub discovered : List String

-- `endpoint.lstrip("/")`.
without_slashes : String → String
without_slashes String.[] = ""
without_slashes (String.◌∷◌ c s) =
    let rest = without_slashes s in if code c == b'/' then rest else String.◌∷◌ c s

-- An existing finding on the same endpoint and under the same OWASP entry.
abbrev pub same_place : VulnerabilityFinding → VulnerabilityFinding → Bool
same_place f existing = str_eq existing.endpoint f.endpoint && str_eq existing.owasp_id f.owasp_id

abbrev pub closure_of : PoCArtifact → ClosureState
closure_of poc = if poc.verified then ClosureState.confirmed else ClosureState.open_proof_gap

abbrev is_success : ℕ → Bool
is_success status = (status == 200) || ((status == 201) || (status == 206))

module _ {P : Type 0} (target : Target P) (config : PentestScanConfig) where
  abbrev pub target_base_url : String
  target_base_url = strip_slashes config.target_url

  unfoldable pub full_url : String → String
  unfolding without_slashes
  full_url endpoint =
      if starts_with endpoint "http://" || starts_with endpoint "https://"
      then endpoint
      else target_base_url +++ "/" +++ without_slashes endpoint

  abbrev answered : Result Response → Request → Action (Pentest P) Response
  answered (err e) request s = (err e, s)
  answered (ok response) request s = (
    ok (record response { body = first_chars 500 response.body }),
    record s { request_history = s.request_history ++ request ∷ [] },
  )

  -- The response has the first 500 characters of the body.
  unfoldable pub http_probe : String → String → Action (Pentest P) Response
  unfolding full_url
  http_probe endpoint method s =
      let request : Request = record {
        id = "req-" +++ show (length s.request_history + 1);
        url = full_url endpoint;
        method = target.upper method;
      } in
      answered (target.respond s.request_history request) request s

  unfoldable pub record_coverage :
      String → String → String → CoverageOutcome → String → Action (Pentest P) (Unit {0})
  record_coverage surface method risk_area outcome evidence s =
      let entry : CoverageRecord = record {
        surface = surface;
        method = target.upper method;
        risk_area = risk_area;
        outcome = outcome;
        evidence = evidence;
      } in
      (ok tt, record s { coverage_ledger = s.coverage_ledger ++ entry ∷ [] })

  -- Whether the answer proves the exploit.
  unfoldable pub is_verified : String → Response → Bool
  is_verified expected_indicator probe =
      if not (is_empty expected_indicator) && occurs_in expected_indicator probe.body
      then true
      else is_success probe.status_code && not (occurs_in "not found" (target.lower probe.body))

  -- Without headers and data of its own.
  unfoldable pub validate_poc : String → String → String → Action (Pentest P) PoCArtifact
  unfolding http_probe is_verified
  validate_poc endpoint method expected_indicator = do
    probe ← http_probe endpoint method
    return (record {
      code =
          "curl -i -X "
          +++ target.upper method
          +++ "  "
          +++ target_base_url
          +++ "/"
          +++ without_slashes endpoint;
      target_endpoint = endpoint;
      expected_indicator = expected_indicator;
      actual_indicator = first_chars 100 probe.body;
      http_status_code = probe.status_code;
      response_snippet = first_chars 200 probe.body;
      verified = is_verified expected_indicator probe;
    })

  unfoldable pub generate_gateway_virtual_patch :
      String → String → String → String → String → GatewayVirtualPatch
  generate_gateway_virtual_patch rule_name pattern method action description = record {
    rule_name = rule_name;
    target_endpoint_pattern = pattern;
    target_method = target.upper method;
    action = action;
    description = description;
    status = "suggested";
  }

  abbrev filed :
      VulnerabilityFinding → Option VulnerabilityFinding → Action (Pentest P) VulnerabilityFinding
  filed finding (some existing) s = (ok existing, s)
  filed finding none s =
      (ok finding, record s { findings_ledger = s.findings_ledger ++ finding ∷ [] })

  -- The report's fields are those of `report`; its state follows from its proof of concept.
  unfoldable pub create_vulnerability_report :
      VulnerabilityFinding → Action (Pentest P) VulnerabilityFinding
  create_vulnerability_report report s =
      let finding : VulnerabilityFinding = record report {
        id = target.uuid (length s.findings_ledger);
        job_id = config.job_id;
        closure_state = closure_of report.poc;
        method = target.upper report.method;
      } in
      filed finding (find (same_place finding) s.findings_ledger) s

  -- `emit_event`.
  unfoldable pub emit_event : String → String → String → Action (Pentest P) (Unit {0})
  emit_event event_type agent_name message s =
      let event : PentestEvent = record {
        event_type = event_type;
        agent_name = agent_name;
        message = message;
      } in
      (ok tt, record s { events = s.events ++ event ∷ [] })
