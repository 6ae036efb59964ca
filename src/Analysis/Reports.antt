-- ===== src/Analysis/Reports.antt =====
-- AnalysisOrchestrator.run of agent/orchestrator/analysis.py: its report.
use zerra.Prelude.{
  ℕ, ◌+◌, ◌≤◌, ◌≡◌, refl, ap, sym, String, Bool, Option, none, some, List, [], ◌∷◌, map, arith,
  length, length-filter-le,
}
use zerra.Prelude.Results.{Error, Result, err, ok, ok-injective}
use zerra.Prelude.Effects.{
  Yields, Yields-return, Yields->>=, Yields-chain, Yields-attempt, Yields-if,
}
use zerra.ScanModels.{ScanResult, Finding, is_open, is_failed}
use zerra.PrEngine.{Log}
use zerra.PrEngine.Process.{
  PrEngine, PrResult, IssueResult, EngineReport, parse_owner_repo, opened_for, open_engine,
}
use zerra.PrEngine.Reports.{accounted, process_lem}
use zerra.Analysis.{
  OrchestrationConfig, OrchestrationReport, World, Parts, in_vault, in_log, scanned, resolve_token,
  scan_config, failed_report, engine_from, run_engine, report_of, run,
}

-- A report of the engine, if it ran.
abbrev IsAccounted :
    {F : Type 0} → OrchestrationConfig → ScanResult F → Option EngineReport → Type 0
IsAccounted config r none = Unit {0}
IsAccounted config r (some report) =
    (length report.prs_opened ≤ config.max_prs) × (accounted report ≤ length r.findings)

-- What the service reports.
abbrev pub IsBounded : OrchestrationConfig → OrchestrationReport → Type 0
IsBounded config report =
    (report.prs_opened ≤ config.max_prs)
    × (report.prs_opened + report.issues_opened + report.skipped ≤ report.total_findings)

length-map {ℓ κ} :
    {A : Type ℓ} {B : Type κ} (f : A → B) (xs : List A) → length (map f xs) ≡ length xs
length-map f [] = refl
length-map f (x ∷ xs) = omega (arith, length-map f xs)

opened_for-max_prs :
    (message : Error → String) (engine : PrEngine) (parsed : Result (String × String))
    {opened : PrEngine}
    → opened_for message engine parsed ≡ ok opened
    → opened.max_prs ≡ engine.max_prs
unfolding opened_for
opened_for-max_prs message engine (err e) same = cc
opened_for-max_prs message engine (ok (owner, repo)) {opened} same =
    sym (ap (λ (e : PrEngine). e.max_prs) (ok-injective same))

open_engine-max_prs :
    (message : Error → String) (token url path branch : String) (max_prs : ℕ)
    (run_tests open_issues : Bool) (opened : PrEngine)
    → open_engine message token url path branch max_prs run_tests open_issues ≡ ok opened
    → opened.max_prs ≡ max_prs
unfolding open_engine
open_engine-max_prs message token url path branch max_prs run_tests open_issues opened same =
    let engine : PrEngine = record {
      token = token;
      repo_url = url;
      repo_path = path;
      base_branch = branch;
      max_prs = max_prs;
      run_tests = run_tests;
      open_issues = open_issues;
      owner = "";
      repo = "";
    } in
    opened_for-max_prs message engine (parse_owner_repo url) same

module _ {F K : Type 0} (parts : Parts F K) (config : OrchestrationConfig) where
  engine_from-Yields :
      (engine : PrEngine) (r : ScanResult F)
      → engine.max_prs ≡ config.max_prs
      → Yields {S = Log} (IsAccounted config r) (engine_from parts config (ok engine) r)
  unfolding engine_from
  engine_from-Yields engine r same =
      Yields-attempt {Q = IsAccounted config r}
        (Yields-chain
          {R = λ report.
            (length report.prs_opened ≤ config.max_prs) × (accounted report ≤ length r.findings)}
          {Q = IsAccounted config r}
          (record {
            yielded = λ log report returns.
                let made =
                  process_lem parts.is_zero parts.one_decimal parts.host parts.generate_fix engine r
                    log returns in
                (
                  omega (arith, made.0, same),
                  omega (
                    arith,
                    made.1,
                    length-filter-le (λ (f : Finding F). is_open f.status) r.findings,
                  ),
                );
          })
          (λ report good. Yields-return {Q = IsAccounted config r} (some report) good))
        (λ e. Yields-return {Q = IsAccounted config r} none tt)

  report_of-IsBounded :
      (r : ScanResult F) (engine_report : Option EngineReport)
      → IsAccounted config r engine_report
      → IsBounded config (report_of parts config r engine_report)
  unfolding report_of accounted
  report_of-IsBounded r none h = omega arith
  report_of-IsBounded r (some report) h =
      let prs = length-map (λ (pr : PrResult). pr.pr_url) report.prs_opened in
      let issues = length-map (λ (i : IssueResult). i.issue_url) report.issues_opened in
      (omega (arith, h.0, prs), omega (arith, h.1, prs, issues))

  opened_from-Yields :
      (opened : Result PrEngine) (r : ScanResult F)
      → ((engine : PrEngine) → opened ≡ ok engine → engine.max_prs ≡ config.max_prs)
      → Yields {S = Log} (IsAccounted config r) (engine_from parts config opened r)
  opened_from-Yields (err e) r same =
      unfold engine_from in Yields-return {Q = IsAccounted config r} none tt
  opened_from-Yields (ok engine) r same = engine_from-Yields engine r (same engine refl)

  run_engine-Yields :
      (token : String) (r : ScanResult F)
      → Yields {S = Log} (IsAccounted config r) (run_engine parts config token r)
  unfolding run_engine
  run_engine-Yields token r =
      Yields-if {Q = IsAccounted config r} _
        (opened_from-Yields _ r (open_engine-max_prs parts.host.message _ _ _ _ config.max_prs _ _))
        (Yields-return {Q = IsAccounted config r} none tt)

  in_log-Yields :
      (r : ScanResult F) (token : String)
      → Yields {S = World K} (IsAccounted config r) (in_log (run_engine parts config token r))
  in_log-Yields r token = record {
    yielded = λ w report returns. (run_engine-Yields token r).yielded w.log report returns;
  }

  run-Yields :
      (self_token : String) → Yields {S = World K} (IsBounded config) (run parts config self_token)
  unfolding run failed_report
  run-Yields self_token =
      Yields->>= {Q = IsBounded config} (in_vault (resolve_token parts config self_token)) (λ token.
        Yields->>= {Q = IsBounded config} (scanned (parts.scan (scan_config config token))) (λ r.
          Yields-if {Q = IsBounded config} (is_failed r.status)
            (Yields-return {Q = IsBounded config} _ (omega arith))
            (Yields-chain {R = IsAccounted config r} {Q = IsBounded config} (in_log-Yields r token)
              (λ engine_report good.
                Yields-return {Q = IsBounded config} _
                  (report_of-IsBounded r engine_report good)))))

  -- A run that returns, whatever the scanner found, whether the engine ran, and whatever it met:
  -- it reports at most `max_prs` pull requests, and no more pull requests, issues and skipped
  -- findings together than findings.
  pub run-IsBounded :
      (self_token : String) (w : World K) {report : OrchestrationReport}
      → (run parts config self_token w).0 ≡ ok report
      → IsBounded config report
  run-IsBounded self_token w {report} returns = (run-Yields self_token).yielded w report returns
