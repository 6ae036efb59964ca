-- ===== src/Pentest/Phases.antt =====
-- PentestOrchestrator of agent/pentest/orchestrator.py: reconnaissance, the tests of the skills,
-- and the run.
use zerra.Prelude.{
  ℕ, String, Bool, true, false, not, ◌&&◌, ◌||◌, Option, none, some, List, [], ◌∷◌, ◌++◌,
  if◌then◌else◌, ◌==◌, ◌+++◌, str_eq, occurs_in, show, length, count_if, is_some, truthy,
}
use zerra.Prelude.Results.{Error, Result, ok}
use zerra.Prelude.Effects.{Action, return, ◌>>=◌, ◌>>◌, attempt, for_each}
use zerra.Pentest.{
  Severity, CoverageOutcome, VulnerabilityFinding, PentestScanConfig, Response, Endpoint,
  ParsedApiSpec, Target, Pentest, http_probe, record_coverage, emit_event,
}

abbrev pub base_paths : List String
base_paths =
    "/health" ∷ "/docs" ∷ "/openapi.json" ∷ "/invoices/inv-001" ∷ "/invoices/inv-002"
    ∷ "/users/usr-100" ∷ "/admin/export" ∷ "/internal/status" ∷ []

-- `self.summary`, without the duration.
pub record Summary : Type 0 where
  pub total_coverage : ℕ
  pub findings_count : ℕ
  pub critical_count : ℕ
  pub high_count : ℕ
  pub medium_count : ℕ
  pub low_count : ℕ
  pub virtual_patches_generated : ℕ

abbrev is_critical : Severity → Bool
is_critical Severity.critical = true
is_critical _ = false

abbrev is_high : Severity → Bool
is_high Severity.high = true
is_high _ = false

abbrev is_medium : Severity → Bool
is_medium Severity.medium = true
is_medium _ = false

abbrev is_low : Severity → Bool
is_low Severity.low = true
is_low _ = false

module _ {P : Type 0} where
  unfoldable pub current : Action (Pentest P) (Pentest P)
  current s = (ok s, s)

  unfoldable pub set_status : String → Action (Pentest P) (Unit {0})
  set_status status s = (ok tt, record s { status = status })

  unfoldable pub set_spec : ParsedApiSpec → Action (Pentest P) (Unit {0})
  set_spec spec s = (ok tt, record s { parsed_spec = some spec })

  unfoldable pub discover : String → Action (Pentest P) (Unit {0})
  discover path s = (ok tt, record s { discovered = s.discovered ++ path ∷ [] })

  unfoldable pub add_probes : List P → Action (Pentest P) (Unit {0})
  add_probes probes s = (ok tt, record s { contract_probes = s.contract_probes ++ probes })

  unfoldable pub from_result : {V : Type 0} → Result V → Action (Pentest P) V
  from_result r s = (r, s)

  unfoldable pub summary_of : Pentest P → Summary
  summary_of s =
      let count = λ (test : Severity → Bool).
        count_if (λ (f : VulnerabilityFinding). test f.severity) s.findings_ledger in
      record {
        total_coverage = length s.coverage_ledger;
        findings_count = length s.findings_ledger;
        critical_count = count is_critical;
        high_count = count is_high;
        medium_count = count is_medium;
        low_count = count is_low;
        virtual_patches_generated =
            count_if (λ (f : VulnerabilityFinding). is_some f.virtual_patch) s.findings_ledger;
      }

module _ {P : Type 0} (target : Target P) (config : PentestScanConfig) where
  -- One route of the specification that the configuration brings.
  unfoldable pub ingest_route : Endpoint → Action (Pentest P) (Unit {0})
  ingest_route ep = do
    let fuzz_probes = target.generate_contract_fuzz_probes ep
    discover ep.path
    add_probes fuzz_probes
    record_coverage target config ep.path ep.method "OpenAPI Schema Ingestion"
        CoverageOutcome.passed
        ("Discovered via contract. Generated "
          +++ show (length fuzz_probes)
          +++ " fuzzing targets.")

  unfoldable pub ingest_spec : Option String → Action (Pentest P) (Unit {0})
  unfolding ingest_route
  ingest_spec none = return tt
  ingest_spec (some text) =
      if not (truthy (some text))
      then return tt
      else attempt
          (do
            spec ← from_result (target.parse_openapi_spec text)
            set_spec spec
            emit_event target config "thought" "Recon Specialist" (
                "Ingested OpenAPI specification '"
                +++ spec.title
                +++ "' ("
                +++ show (length spec.endpoints)
                +++ " routes). Generating contract fuzz probes.")
            for_each ingest_route spec.endpoints)
          (λ (e : Error). return tt)

  -- `/openapi.json`, read from the target.
  unfoldable pub ingest_live : String → String → Action (Pentest P) (Unit {0})
  ingest_live path text =
      attempt
        (do
          spec ← from_result (target.parse_openapi_spec text)
          set_spec spec
          emit_event target config "recon" "Recon Specialist" (
              "Auto-discovered and parsed live OpenAPI specification at "
              +++ path
              +++ " ("
              +++ show (length spec.endpoints)
              +++ " routes).")
          for_each (λ (ep : Endpoint). add_probes (target.generate_contract_fuzz_probes ep))
              spec.endpoints)
        (λ (e : Error). return tt)

  unfoldable pub found_path : String → Response → Action (Pentest P) (Unit {0})
  unfolding ingest_live
  found_path path probe = do
    discover path
    record_coverage target config path "GET" "Reconnaissance" CoverageOutcome.passed
        ("Discovered active endpoint returning HTTP " +++ show probe.status_code)
    emit_event target config "coverage" "Recon Specialist" (
        "Identified responsive endpoint " +++ path +++ " (HTTP " +++ show probe.status_code +++ ")")
    s ← current
    if str_eq path "/openapi.json" && (occurs_in "paths" probe.body && not (is_some s.parsed_spec))
        then ingest_live path probe.body
        else return tt

  unfoldable pub probe_path : String → Action (Pentest P) (Unit {0})
  unfolding found_path
  probe_path path = do
    probe ← http_probe target config path "GET"
    if (probe.status_code == 404) || (probe.status_code == 0)
        then return tt
        else found_path path probe

  unfoldable pub run_recon_phase : Action (Pentest P) (Unit {0})
  unfolding ingest_spec probe_path
  run_recon_phase = do
    emit_event target config "recon" "Recon Specialist"
        "Commencing attack surface discovery and route reconnaissance."
    ingest_spec config.openapi_spec
    for_each probe_path (base_paths ++ config.known_endpoints)
    s ← current
    emit_event target config "thought" "Root Orchestrator" (
        "Reconnaissance complete. Mapped "
        +++ show (length s.discovered)
        +++ " responsive attack vectors. Dispatching specialized vulnerability analysis.")
