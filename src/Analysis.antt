-- ===== src/Analysis.antt =====
-- The analysis service, agent/orchestrator/analysis.py: a scan, then the pull request engine with
-- the vault's token. The scanner is a parameter; saving the scan in the database, whose failure is
-- ignored, the times and the log are left out.
pub mod Reports
use zerra.Prelude.{
  ℕ, String, Bool, true, false, not, ◌&&◌, Option, none, some, List, [], ◌∷◌, map, if◌then◌else◌,
  length, is_empty, truthy, or_else,
}
use zerra.Prelude.Results.{Error, Result, err, ok}
use zerra.Prelude.Effects.{Action, return, raise, ◌>>=◌, ◌>>◌, attempt}
use zerra.ScanModels.{
  ScanMode, ScanStatus, ScanConfig, ScanResult, Finding, FixSuggestion, is_failed, critical_count,
  high_count, medium_count, low_count, security_score,
}
use zerra.Vault.{Library, Vault}
use zerra.Vault.Facade
use zerra.PrEngine.{Log, Host}
use zerra.PrEngine.Process.{PrEngine, PrResult, IssueResult, EngineReport, open_engine, process}

pub record OrchestrationConfig : Type 0 where
  pub target : String
  pub github_repo_url : String
  pub github_token : String
  pub branch : String
  pub mode : ScanMode
  pub max_prs : ℕ
  pub run_tests : Bool
  pub open_issues : Bool
  pub enable_sast : Bool
  pub enable_secrets : Bool
  pub enable_sca : Bool
  pub excluded_paths : List String

pub record OrchestrationReport : Type 0 where
  pub scan_id : String
  pub target : String
  pub github_repo_url : String
  pub security_score : String
  pub total_findings : ℕ
  pub critical : ℕ
  pub high : ℕ
  pub medium : ℕ
  pub low : ℕ
  pub prs_opened : ℕ
  pub issues_opened : ℕ
  pub pr_urls : List String
  pub issue_urls : List String
  pub skipped : ℕ
  pub error : String

-- The vault, and what the engine did.
pub record World (K : Type 0) : Type 0 where
  pub vault : Vault K
  pub log : Log

-- The parts that the service calls.
pub record Parts (F K : Type 0) : Type 0 where
  pub scan : ScanConfig → Result (ScanResult F)
  pub generate_fix : Finding F → Option FixSuggestion
  pub library : Library K
  pub host : Host
  -- `Path(target).is_dir()`.
  pub is_dir : String → Bool
  pub is_zero : F → Bool
  pub one_decimal : F → String

module _ {K : Type 0} where
  abbrev in_vault : {V : Type 0} → Action (Vault K) V → Action (World K) V
  in_vault action w = ((action w.vault).0, record w { vault = (action w.vault).1 })

  abbrev pub in_log : {V : Type 0} → Action Log V → Action (World K) V
  in_log action w = ((action w.log).0, record w { log = (action w.log).1 })

  abbrev scanned : {V : Type 0} → Result V → Action (World K) V
  scanned r w = (r, w)

unfoldable pub scan_config : OrchestrationConfig → String → ScanConfig
scan_config config token = record {
  repo_url = config.target;
  branch = some config.branch;
  commit_sha = none;
  mode = config.mode;
  target_paths = [];
  excluded_paths = config.excluded_paths;
  enable_sast = config.enable_sast;
  enable_sca = config.enable_sca;
  enable_secrets = config.enable_secrets;
  github_token = some token;
  max_file_size_kb = 500;
}

module _ {F K : Type 0} (parts : Parts F K) (config : OrchestrationConfig) where
  -- The token of the repository, and else the one under "GITHUB_TOKEN".
  unfoldable pub vault_token : Action (Vault K) String
  vault_token =
      attempt
        (do
          found ←
              (if is_empty config.github_repo_url
                then return none
                else Facade.get_github_token parts.library config.github_repo_url)
          if truthy found
              then return (or_else found "")
              else do other ← Facade.get parts.library "GITHUB_TOKEN"; return (or_else other ""))
        (λ (e : Error). return "")

  -- `self_token` is that of the orchestrator.
  unfoldable pub resolve_token : String → Action (Vault K) String
  unfolding vault_token
  resolve_token self_token =
      if not (is_empty config.github_token)
      then return config.github_token
      else if not (is_empty self_token)
      then return self_token
      else vault_token

  unfoldable pub failed_report : ScanResult F → OrchestrationReport
  failed_report r = record {
    scan_id = r.id;
    target = config.target;
    github_repo_url = config.github_repo_url;
    security_score = "F";
    total_findings = 0;
    critical = 0;
    high = 0;
    medium = 0;
    low = 0;
    prs_opened = 0;
    issues_opened = 0;
    pr_urls = [];
    issue_urls = [];
    skipped = 0;
    error = if truthy r.error_message then or_else r.error_message "" else "Scan failed";
  }

  -- `PREngine(...)` and its run, whose exceptions are logged.
  unfoldable pub engine_from : Result PrEngine → ScanResult F → Action Log (Option EngineReport)
  engine_from (err e) r = return none
  engine_from (ok engine) r =
      attempt
        (process parts.is_zero parts.one_decimal parts.host parts.generate_fix engine r
          >>= λ report. return (some report))
        (λ (e : Error). return none)

  unfoldable pub run_engine : String → ScanResult F → Action Log (Option EngineReport)
  unfolding engine_from
  run_engine token r =
      if not (is_empty token)
        && (not (is_empty config.github_repo_url) && parts.is_dir config.target)
      then engine_from
          (open_engine parts.host.message token config.github_repo_url config.target config.branch
            config.max_prs config.run_tests config.open_issues)
          r
      else return none

  unfoldable pub report_of : ScanResult F → Option EngineReport → OrchestrationReport
  report_of r engine_report =
      let pr_urls =
        map (λ (pr : PrResult). pr.pr_url)
          (elim engine_report [ none ↦ [] | some report ↦ report.prs_opened ]) in
      let issue_urls =
        map (λ (i : IssueResult). i.issue_url)
          (elim engine_report [ none ↦ [] | some report ↦ report.issues_opened ]) in
      record {
        scan_id = r.id;
        target = config.target;
        github_repo_url = config.github_repo_url;
        security_score = security_score r;
        total_findings = length r.findings;
        critical = critical_count r;
        high = high_count r;
        medium = medium_count r;
        low = low_count r;
        prs_opened = length pr_urls;
        issues_opened = length issue_urls;
        pr_urls = pr_urls;
        issue_urls = issue_urls;
        skipped = elim engine_report [
          | none ↦ length r.findings
          | some report ↦ length report.skipped
        ];
        error = "";
      }

  unfoldable pub run : String → Action (World K) OrchestrationReport
  unfolding resolve_token scan_config failed_report run_engine report_of
  run self_token = do
    token ← in_vault (resolve_token self_token)
    scan_result ← scanned (parts.scan (scan_config config token))
    if is_failed scan_result.status then return (failed_report scan_result) else do
      engine_report ← in_log (run_engine token scan_result)
      return (report_of scan_result engine_report)
