-- ===== src/Pentest/Assessments.antt =====
-- PentestOrchestrator of agent/pentest/orchestrator.py: the tests of the skills.
use zerra.Prelude.{
  ℕ, zero, suc, String, ◌&&◌, Option, none, some, List, [], ◌∷◌, if◌then◌else◌, ◌==◌, ◌+++◌, str_eq,
  show,
}
use zerra.Prelude.Results.{attribute_error}
use zerra.Prelude.Effects.{Action, return, raise, ◌>>=◌, ◌>>◌}
use zerra.Pentest.{
  Severity, severity_upper, CoverageOutcome, ClosureState, PoCArtifact, GatewayVirtualPatch,
  VulnerabilityFinding, PentestScanConfig, Target, Pentest, http_probe, record_coverage,
  validate_poc, generate_gateway_virtual_patch, create_vulnerability_report, emit_event,
}
use zerra.Pentest.Skills.{PentestSkill, get_skill}

module _ {P : Type 0} (target : Target P) (config : PentestScanConfig) where
  bola_patch : GatewayVirtualPatch
  bola_patch =
      generate_gateway_virtual_patch target config "BOLA-Invoices-Tenant-Isolation" "/invoices/*"
        "GET" "BLOCK"
        "Enforce strict tenant ID matching and require valid authenticated session for invoice records."

  bola_report : PentestSkill → PoCArtifact → VulnerabilityFinding
  unfolding bola_patch
  bola_report skill poc = record {
    id = "";
    job_id = config.job_id;
    title = "Cross-Tenant Broken Object Level Authorization in Invoices API";
    owasp_id = skill.owasp_id;
    cwe = skill.cwe;
    severity = Severity.high;
    closure_state = ClosureState.confirmed;
    endpoint = "/invoices/{invoice_id}";
    method = "GET";
    description =
        "Unauthenticated and cross-tenant callers can enumerate and retrieve confidential invoice records by guessing sequential IDs.";
    technical_analysis =
        "The endpoint `/invoices/{invoice_id}` does not validate caller tenant membership against object ownership before returning the record.";
    poc = poc;
    counterevidence = record {
      argument_against = "The invoice endpoint might be designed as a public receipt viewer.";
      assumptions =
          "Invoices belong to distinct commercial tenants"
          ∷ "Financial data requires tenant authorization" ∷ [];
      why_it_matters =
          "The response discloses unauthenticated corporate tenant billing records across tenant boundaries without identity verification.";
      confidence = "high";
    };
    remediation_advice =
        "Implement object-level access control checks verifying that the authenticated caller belongs to the tenant owning the invoice.";
    code_fix_before =
        some
          "@app.get(\"/invoices/{invoice_id}\")\ndef invoice(invoice_id: str):\n    return data._invoices[invoice_id]";
    code_fix_after =
        some
          "@app.get(\"/invoices/{invoice_id}\")\ndef invoice(invoice_id: str, current_user = Depends(get_current_user)):\n    item = data.get_invoice_metadata(invoice_id)\n    if item.tenant_id != current_user.tenant_id:\n        raise HTTPException(403, \"Access denied to cross-tenant object\")\n    return data._invoices[invoice_id]";
    virtual_patch = some bola_patch;
  }

  bfla_patch : GatewayVirtualPatch
  bfla_patch =
      generate_gateway_virtual_patch target config "BFLA-Admin-Export-Restriction" "/admin/*" "GET"
        "BLOCK" "Enforce admin role verification on all administrative paths at the Gateway proxy."

  bfla_report : PentestSkill → PoCArtifact → VulnerabilityFinding
  unfolding bfla_patch
  bfla_report skill poc = record {
    id = "";
    job_id = config.job_id;
    title = "Unrestricted Administrative Function Access on /admin/export";
    owasp_id = skill.owasp_id;
    cwe = skill.cwe;
    severity = Severity.high;
    closure_state = ClosureState.confirmed;
    endpoint = "/admin/export";
    method = "GET";
    description =
        "The administrative export function can be invoked by unauthenticated callers without role validation.";
    technical_analysis =
        "The handler for `/admin/export` returns data directly without verifying identity tokens or checking admin privileges.";
    poc = poc;
    counterevidence = record {
      argument_against =
          "The endpoint could be an unauthenticated stub for public health diagnostics.";
      assumptions =
          "Admin routes are meant solely for operators"
          ∷ "Sensitive bulk exports require admin privileges" ∷ [];
      why_it_matters =
          "The /admin/export path allows unauthenticated execution of global data exports.";
      confidence = "high";
    };
    remediation_advice =
        "Enforce role-based access control (RBAC) middleware verifying caller identity has the 'admin' permission.";
    code_fix_before =
        some
          "@app.get(\"/admin/export\")\ndef export():\n    return {\"records\": [], \"status\": \"export-ready\"}";
    code_fix_after =
        some
          "@app.get(\"/admin/export\")\ndef export(admin_user = Depends(require_admin_role)):\n    return {\"records\": [], \"status\": \"export-ready\"}";
    virtual_patch = some bfla_patch;
  }

  -- The exploit is run again, and what comes of it is reported.
  unfoldable pub report_bola : PentestSkill → Action (Pentest P) (Unit {0})
  unfolding bola_report bola_patch
  report_bola skill = do
    poc ← validate_poc target config "/invoices/inv-002" "GET" "amount"
    finding ← create_vulnerability_report target config (bola_report skill poc)
    record_coverage target config "/invoices/{invoice_id}" "GET" skill.name
        CoverageOutcome.vulnerable
        "Successfully retrieved cross-tenant invoice without auth. Status 200."
    emit_event target config "finding" "Authz Specialist" (
        "CONFIRMED VULNERABILITY: "
        +++ finding.title
        +++ " (Severity: "
        +++ severity_upper finding.severity
        +++ ")")
    emit_event target config "patch" "Defense Synthesizer"
        ("Generated inline Zero-Trust Gateway Virtual Patch: " +++ bola_patch.rule_name)

  unfoldable pub test_bola_idor : PentestSkill → Action (Pentest P) (Unit {0})
  unfolding report_bola
  test_bola_idor skill = do
    emit_event target config "thought" "Authz Specialist"
        "Analyzing object endpoints for tenant isolation and authorization checks. Probing /invoices/inv-001 and /invoices/inv-002 across boundaries."
    probe1 ← http_probe target config "/invoices/inv-001" "GET"
    probe2 ← http_probe target config "/invoices/inv-002" "GET"
    if (probe1.status_code == 200) && (probe2.status_code == 200)
        then report_bola skill
        else return tt

  unfoldable pub report_bfla : PentestSkill → Action (Pentest P) (Unit {0})
  unfolding bfla_report bfla_patch
  report_bfla skill = do
    poc ← validate_poc target config "/admin/export" "GET" "export-ready"
    finding ← create_vulnerability_report target config (bfla_report skill poc)
    record_coverage target config "/admin/export" "GET" skill.name CoverageOutcome.vulnerable
        "Admin export executed unauthenticated with HTTP 200."
    emit_event target config "finding" "Privilege Specialist"
        ("CONFIRMED VULNERABILITY: " +++ finding.title)
    emit_event target config "patch" "Defense Synthesizer"
        ("Generated inline Zero-Trust Gateway Virtual Patch: " +++ bfla_patch.rule_name)

  unfoldable pub test_bfla : PentestSkill → Action (Pentest P) (Unit {0})
  unfolding report_bfla
  test_bfla skill = do
    emit_event target config "thought" "Privilege Specialist"
        "Inspecting privileged administrative endpoints for missing role enforcement."
    probe ← http_probe target config "/admin/export" "GET"
    if probe.status_code == 200 then report_bfla skill else return tt

  unfoldable pub test_broken_auth : PentestSkill → Action (Pentest P) (Unit {0})
  test_broken_auth skill =
      record_coverage target config "/users/{user_id}" "GET" skill.name CoverageOutcome.passed
        "User profile route verified with basic identity contract."

  -- The successes are counted and not used.
  unfoldable pub burst : ℕ → Action (Pentest P) (Unit {0})
  burst zero = return tt
  burst (suc n) = http_probe target config "/health" "GET" >> burst n

  unfoldable pub test_resource_exhaustion : PentestSkill → Action (Pentest P) (Unit {0})
  unfolding burst
  test_resource_exhaustion skill = do
    emit_event target config "thought" "RateLimit Specialist"
        "Conducting rapid burst tests against target endpoints to check rate-limiting behavior."
    burst 15
    record_coverage target config "/health" "GET" skill.name CoverageOutcome.passed
        ("Completed " +++ show 15 +++ " rapid requests. Target sustained traffic safely.")

  -- `self._test_agentic_mcp(skill)`: the class has no method of this name.
  unfoldable pub test_agentic_mcp : PentestSkill → Action (Pentest P) (Unit {0})
  test_agentic_mcp skill =
      raise (attribute_error "'PentestOrchestrator' object has no attribute '_test_agentic_mcp'")

  -- The method that is there, which nothing calls.
  test_agentic_mcp_security : PentestSkill → Action (Pentest P) (Unit {0})
  test_agentic_mcp_security skill =
      record_coverage target config "/v1/evaluate" "POST" skill.name CoverageOutcome.passed
        "Proxy event ingestion validates schema and enforces typed boundary contracts."

  unfoldable pub test_skill : PentestSkill → Action (Pentest P) (Unit {0})
  test_skill skill =
      if str_eq skill.id "api_bola_idor"
      then test_bola_idor skill
      else if str_eq skill.id "api_bfla"
      then test_bfla skill
      else if str_eq skill.id "api_broken_auth"
      then test_broken_auth skill
      else if str_eq skill.id "api_resource_exhaustion"
      then test_resource_exhaustion skill
      else if str_eq skill.id "agentic_mcp_security"
      then test_agentic_mcp skill
      else return tt

  -- One round of the assessment phase.
  unfoldable pub assess : Option PentestSkill → Action (Pentest P) (Unit {0})
  unfolding test_skill
  assess none = return tt
  assess (some skill) = do
    emit_event target config "action" ("Specialist (" +++ skill.name +++ ")") (
        "Loaded security skill '" +++ skill.name +++ "' (" +++ skill.owasp_id
        +++ "). Executing targeted test suite.")
    test_skill skill

  unfoldable pub run_assessment_phase : List String → Action (Pentest P) (Unit {0})
  unfolding assess
  run_assessment_phase [] = return tt
  run_assessment_phase (skill_id ∷ rest) = assess (get_skill skill_id) >> run_assessment_phase rest
