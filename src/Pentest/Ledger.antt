-- ===== src/Pentest/Ledger.antt =====
-- The ledgers of a penetration test: agent/pentest/tools.py under the phases of
-- agent/pentest/orchestrator.py.
use zerra.Prelude.{
  ℕ, zero, suc, ◌≡◌, refl, String, Bool, true, false, ◌&&◌, ◌||◌, Option, none, some, List, [], ◌∷◌,
  ◌++◌, arith, All, All-append, if◌then◌else◌, ◌==◌, str_eq, str_eq_iff, find, any, ◌∙◌,
}
use zerra.Prelude.Results.{Result, err, ok}
use zerra.Prelude.Effects.{Keeps, Keeps-return, Keeps-raise, Keeps->>=, Keeps-if}
use zerra.Pentest.{
  CoverageOutcome, VulnerabilityFinding, PentestEvent, PentestScanConfig, Response, Request, Target,
  Pentest, same_place, closure_of, answered, http_probe, record_coverage, validate_poc, filed,
  create_vulnerability_report, emit_event,
}
use zerra.Pentest.Skills.{PentestSkill, get_skill}
use zerra.Pentest.Assessments.{
  report_bola, test_bola_idor, report_bfla, test_bfla, test_broken_auth, burst,
  test_resource_exhaustion, test_agentic_mcp, test_skill, assess, run_assessment_phase,
}
use zerra.Pentest.Engagement.{is_terminal}

-- No two findings are on the same endpoint under the same OWASP entry.
abbrev pub Unique : List VulnerabilityFinding → Type 0
Unique [] = Unit {0}
Unique (f ∷ fs) = (any (same_place f) fs ≡ false) × Unique fs

-- A finding is confirmed exactly if its exploit was verified.
abbrev pub IsProved : VulnerabilityFinding → Type 0
IsProved f = f.closure_state ≡ closure_of f.poc

pub record IsSound {P : Type 0} (s : Pentest P) : Type 0 where
  pub unique : Unique s.findings_ledger
  pub proved : All IsProved s.findings_ledger
  pub unfinished : All (λ (e : PentestEvent). is_terminal e ≡ false) s.events

same_place-sym : (f g : VulnerabilityFinding) → same_place f g ≡ same_place g f
same_place-sym f g = ground (
  arith,
  str_eq_iff g.endpoint f.endpoint,
  str_eq_iff f.endpoint g.endpoint,
  str_eq_iff g.owasp_id f.owasp_id,
  str_eq_iff f.owasp_id g.owasp_id,
)

any-append :
    (test : VulnerabilityFinding → Bool) (fs : List VulnerabilityFinding) (f : VulnerabilityFinding)
    → any test fs ≡ false
    → test f ≡ false
    → any test (fs ++ f ∷ []) ≡ false
any-append test [] f h k = ground arith
any-append test (g ∷ fs) f h k = ground (arith, any-append test fs f)

if-eq-none :
    (test : Bool) (f : VulnerabilityFinding) (rest : Option VulnerabilityFinding)
    → (if test then some f else rest) ≡ none
    → (test ≡ false) × (rest ≡ none)
if-eq-none true f rest h = cc
if-eq-none false f rest h = (refl, h)

-- The search for an existing finding comes to none.
Unique-append :
    (fs : List VulnerabilityFinding) (f : VulnerabilityFinding)
    → Unique fs
    → find (same_place f) fs ≡ none
    → Unique (fs ++ f ∷ [])
Unique-append [] f h new = (refl, tt)
Unique-append (g ∷ fs) f h new =
    let (differs, absent) = if-eq-none (same_place f g) g (find (same_place f) fs) new in
    (
      any-append (same_place g) fs f h.0 (same_place-sym g f ∙ differs),
      Unique-append fs f h.1 absent,
    )

module _ {P : Type 0} (target : Target P) (config : PentestScanConfig) where
  pub emit_event-Keeps :
      (event_type agent message : String)
      → (str_eq event_type "complete" || str_eq event_type "error") ≡ false
      → Keeps IsSound (emit_event target config event_type agent message)
  unfolding emit_event
  emit_event-Keeps event_type agent message unfinished = record {
    kept = λ s h. record {
      unique = h.unique;
      proved = h.proved;
      unfinished =
          All-append (λ (e : PentestEvent). is_terminal e ≡ false) s.events _ h.unfinished
            (unfinished, tt);
    };
  }

  pub http_probe-Keeps :
      (endpoint method : String) → Keeps IsSound (http_probe target config endpoint method)
  unfolding http_probe
  http_probe-Keeps endpoint method = record {
    kept = λ s h. probed (target.respond s.request_history _) _ s h;
  }
    where
      probed :
          (r : Result Response) (request : Request) (s : Pentest P)
          → IsSound s
          → IsSound (answered target config r request s).1
      probed (err e) request s h = h
      probed (ok response) request s h = record {
        unique = h.unique;
        proved = h.proved;
        unfinished = h.unfinished;
      }

  pub record_coverage-Keeps :
      (surface method area : String) (outcome : CoverageOutcome) (evidence : String)
      → Keeps IsSound (record_coverage target config surface method area outcome evidence)
  unfolding record_coverage
  record_coverage-Keeps surface method area outcome evidence = record {
    kept = λ s h. record { unique = h.unique; proved = h.proved; unfinished = h.unfinished };
  }

  filed-IsSound :
      (f : VulnerabilityFinding) (found : Option VulnerabilityFinding) (s : Pentest P)
      → find (same_place f) s.findings_ledger ≡ found
      → IsProved f
      → IsSound s
      → IsSound (filed target config f found s).1
  filed-IsSound f (some existing) s same proved h = h
  filed-IsSound f none s same proved h = record {
    unique = Unique-append s.findings_ledger f h.unique same;
    proved = All-append IsProved s.findings_ledger _ h.proved (proved, tt);
    unfinished = h.unfinished;
  }

  create_vulnerability_report-Keeps :
      (report : VulnerabilityFinding)
      → Keeps IsSound (create_vulnerability_report target config report)
  unfolding create_vulnerability_report
  create_vulnerability_report-Keeps report = record {
    kept = λ s h. filed-IsSound _ _ s refl refl h;
  }

  validate_poc-Keeps :
      (endpoint method indicator : String)
      → Keeps IsSound (validate_poc target config endpoint method indicator)
  unfolding validate_poc
  validate_poc-Keeps endpoint method indicator =
      Keeps->>= (http_probe-Keeps endpoint method) (λ probe. Keeps-return _)

  report_bola-Keeps : (skill : PentestSkill) → Keeps IsSound (report_bola target config skill)
  unfolding report_bola
  report_bola-Keeps skill =
      Keeps->>= (validate_poc-Keeps "/invoices/inv-002" "GET" "amount") (λ poc.
        Keeps->>= (create_vulnerability_report-Keeps _) (λ finding.
          Keeps->>= (record_coverage-Keeps _ _ _ _ _) (λ covered.
            Keeps->>= (emit_event-Keeps "finding" _ _ refl)
              (λ told. emit_event-Keeps "patch" _ _ refl))))

  report_bfla-Keeps : (skill : PentestSkill) → Keeps IsSound (report_bfla target config skill)
  unfolding report_bfla
  report_bfla-Keeps skill =
      Keeps->>= (validate_poc-Keeps "/admin/export" "GET" "export-ready") (λ poc.
        Keeps->>= (create_vulnerability_report-Keeps _) (λ finding.
          Keeps->>= (record_coverage-Keeps _ _ _ _ _) (λ covered.
            Keeps->>= (emit_event-Keeps "finding" _ _ refl)
              (λ told. emit_event-Keeps "patch" _ _ refl))))

  test_bola_idor-Keeps : (skill : PentestSkill) → Keeps IsSound (test_bola_idor target config skill)
  unfolding test_bola_idor
  test_bola_idor-Keeps skill = Keeps->>= (emit_event-Keeps "thought" _ _ refl) (λ told.
      Keeps->>= (http_probe-Keeps "/invoices/inv-001" "GET") (λ probe1.
        Keeps->>= (http_probe-Keeps "/invoices/inv-002" "GET") (λ probe2.
          Keeps-if ((probe1.status_code == 200) && (probe2.status_code == 200))
            (report_bola-Keeps skill) (Keeps-return tt))))

  test_bfla-Keeps : (skill : PentestSkill) → Keeps IsSound (test_bfla target config skill)
  unfolding test_bfla
  test_bfla-Keeps skill = Keeps->>= (emit_event-Keeps "thought" _ _ refl) (λ told.
      Keeps->>= (http_probe-Keeps "/admin/export" "GET")
        (λ probe. Keeps-if (probe.status_code == 200) (report_bfla-Keeps skill) (Keeps-return tt)))

  burst-Keeps : (n : ℕ) → Keeps IsSound (burst target config n)
  unfolding burst
  burst-Keeps zero = Keeps-return tt
  burst-Keeps (suc n) = Keeps->>= (http_probe-Keeps "/health" "GET") (λ probe. burst-Keeps n)

  test_resource_exhaustion-Keeps :
      (skill : PentestSkill) → Keeps IsSound (test_resource_exhaustion target config skill)
  unfolding test_resource_exhaustion
  test_resource_exhaustion-Keeps skill =
      Keeps->>= (emit_event-Keeps "thought" _ _ refl)
        (λ told. Keeps->>= (burst-Keeps 15) (λ over. record_coverage-Keeps _ _ _ _ _))

  test_skill-Keeps : (skill : PentestSkill) → Keeps IsSound (test_skill target config skill)
  unfolding test_skill test_broken_auth test_agentic_mcp
  test_skill-Keeps skill = Keeps-if _ (test_bola_idor-Keeps skill) (
      Keeps-if _ (test_bfla-Keeps skill) (
        Keeps-if _ (record_coverage-Keeps _ _ _ _ _) (
          Keeps-if _ (test_resource_exhaustion-Keeps skill)
            (Keeps-if _ (Keeps-raise _) (Keeps-return tt)))))

  assess-Keeps : (found : Option PentestSkill) → Keeps IsSound (assess target config found)
  unfolding assess
  assess-Keeps none = Keeps-return tt
  assess-Keeps (some skill) =
      Keeps->>= (emit_event-Keeps "action" _ _ refl) (λ told. test_skill-Keeps skill)

  pub run_assessment_phase-Keeps :
      (skills : List String) → Keeps IsSound (run_assessment_phase target config skills)
  unfolding run_assessment_phase
  run_assessment_phase-Keeps [] = Keeps-return tt
  run_assessment_phase-Keeps (skill_id ∷ rest) =
      Keeps->>= (assess-Keeps (get_skill skill_id)) (λ over. run_assessment_phase-Keeps rest)
