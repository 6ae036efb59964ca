-- ===== src/Examples/Analyses.antt =====
-- The analysis service on concrete parts.
use zerra.Prelude.{ℕ, ◌≡◌, refl, true, [], ◌∷◌, show, first_chars, strip_slashes, without, split_at}
use zerra.Prelude.Results.{ok}
use zerra.ScanModels.{
  ScanMode, security_score, total_weight, critical_count, high_count, medium_count, low_count,
}
use zerra.PrEngine
use zerra.PrEngine.Commands
use zerra.PrEngine.{apply_patch_locally}
use zerra.PrEngine.Commands.{create_worktree, run_tests}
use zerra.PrEngine.Process.{open_engine, parse_owner_repo, process, try_create_pr}
use zerra.Analysis.{OrchestrationConfig, OrchestrationReport, World, Parts, run}
use zerra.Analysis.Reports.{IsBounded, run-IsBounded}
use zerra.Examples.Credentials.{Passwords, library, empty_vault}
use zerra.Examples.Fixes.{host, generate, risky_scan, is_zero}

abbrev parts : Parts ℕ Passwords
parts = record {
  scan = λ config. ok risky_scan;
  generate_fix = generate;
  library = library;
  host = host;
  is_dir = λ path. true;
  is_zero = is_zero;
  one_decimal = show;
}

abbrev configuration : OrchestrationConfig
configuration = record {
  target = "/home/alice/b";
  github_repo_url = "https://github.com/a/b";
  github_token = "abc";
  branch = "main";
  mode = ScanMode.quick;
  max_prs = 10;
  run_tests = true;
  open_issues = true;
  enable_sast = true;
  enable_secrets = true;
  enable_sca = true;
  excluded_paths = [];
}

abbrev world : World Passwords
world = record { vault = empty_vault; log = [] }

abbrev report : OrchestrationReport
report = record {
  scan_id = "scan-1";
  target = "/home/alice/b";
  github_repo_url = "https://github.com/a/b";
  security_score = "C";
  total_findings = 1;
  critical = 1;
  high = 0;
  medium = 0;
  low = 0;
  prs_opened = 1;
  issues_opened = 0;
  pr_urls = "https://pr" ∷ [];
  issue_urls = [];
  skipped = 0;
  error = "";
}

analysed : (run parts configuration "" world).0 ≡ ok report
unfolding run open_engine process try_create_pr create_worktree PrEngine.perform PrEngine.run
    Commands.remove_worktree apply_patch_locally run_tests Commands.git_commit Commands.git_push
    first_chars security_score total_weight critical_count high_count medium_count low_count
    strip_slashes without split_at parse_owner_repo
analysed = refl

run-IsBounded_example : IsBounded configuration report
run-IsBounded_example = run-IsBounded parts configuration "" world analysed
