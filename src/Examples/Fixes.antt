-- ===== src/Examples/Fixes.antt =====
-- The pull request engine on a concrete host.
use zerra.Prelude.{
  ℕ, ◌≤◌, ◌≡◌, refl, ◌⊎◌, String, Bool, true, false, Option, none, some, [], ◌∷◌, All, length, ◌==◌,
  split_at, show, subst, or_else, first_chars,
}
use zerra.Prelude.Results.{ok}
use zerra.Prelude.Effects.{pos}
use zerra.ScanModels.{Finding, FixSuggestion, ScanResult}
use zerra.PrEngine
use zerra.PrEngine.{Event, write, Log, Host, path_join, apply_patch_locally, count, replace_first}
use zerra.PrEngine.Commands
use zerra.PrEngine.Commands.{create_worktree}
use zerra.PrEngine.Process.{
  PrEngine, PrResult, EngineReport, process, try_create_pr, branch_name, open_findings,
}
use zerra.PrEngine.Reports.{accounted, process_lem}
use zerra.PrEngine.Worktrees.{is_inside, IsOutside}
use zerra.PrEngine.Isolation.{process-IsOutside}
use zerra.PrEngine.Verified.{IsVerified, try_create_pr-IsVerified}
use zerra.PrEngine.Patches.{apply_patch_locally_lem}
use zerra.Examples.{scan, leaked}

-- Every command succeeds, and every file reads the same.
abbrev pub host : Host
host = record {
  runs = λ log argv cwd. ok (record { returncode = pos 0; stdout = ""; stderr = "" });
  temporary = λ log. ok "/tmp/zerra-wt-1";
  rmdir_fails = λ log. none;
  exists = λ log path. true;
  read_text = λ log path. ok "import os\neval(text)\n";
  write_fails = λ log. none;
  has_test_script = λ log path. ok false;
  create_pull_request = λ log request. ok (record { html_url = "https://pr"; number = 7 });
  post_issue = λ log request. ok (record { html_url = "https://issue"; number = 8 });
  message = λ e. "failed";
  with_token = λ token url. url;
}

abbrev pub fix : FixSuggestion
fix = record {
  file_path = "app.py";
  original_code = "eval(text)";
  fixed_code = "literal_eval(text)";
  explanation = "No code is run.";
}

abbrev pub generate : Finding ℕ → Option FixSuggestion
generate finding = some fix

abbrev engine : PrEngine
engine = record {
  token = "abc";
  repo_url = "https://github.com/a/b";
  repo_path = "/home/alice/b";
  base_branch = "main";
  max_prs = 10;
  run_tests = true;
  open_issues = true;
  owner = "a";
  repo = "b";
}

abbrev pub is_zero : ℕ → Bool
is_zero score = score == 0

applied : (apply_patch_locally host "/tmp/zerra-wt-1" fix []).0 ≡ ok (true, "")
unfolding apply_patch_locally PrEngine.count PrEngine.write_text PrEngine.perform
    PrEngine.replace_first
applied = refl

apply_patch_locally_lem_example :
    (content : String) × (host.read_text [] (path_join "/tmp/zerra-wt-1" "app.py") ≡ ok content)
    × (count "eval(text)" content ≡ 1)
    × ((apply_patch_locally host "/tmp/zerra-wt-1" fix []).1
        ≡ write
            (path_join "/tmp/zerra-wt-1" "app.py")
            (replace_first "eval(text)" "literal_eval(text)" content)
          ∷ [])
apply_patch_locally_lem_example = apply_patch_locally_lem host fix "/tmp/zerra-wt-1" [] applied

abbrev pub risky : Finding ℕ
risky = record leaked { code_snippet = some "eval(text)"; title = "Code injection" }

abbrev pub risky_scan : ScanResult ℕ
risky_scan = record scan { findings = risky ∷ [] }

generate-relative :
    (finding : Finding ℕ) (suggested : FixSuggestion)
    → generate finding ≡ some suggested
    → is_inside suggested.file_path ≡ true
unfolding split_at
generate-relative finding suggested same =
    subst (λ (o : Option FixSuggestion). is_inside (or_else o fix).file_path ≡ true) same refl

process-IsOutside_example :
    All (IsOutside host engine) (process is_zero show host generate engine risky_scan []).1
process-IsOutside_example =
    process-IsOutside is_zero show host generate engine generate-relative risky_scan

abbrev pr : PrResult
pr = record {
  finding_id = "f1";
  finding_title = "Code injection";
  branch = "zerra/fix-f1";
  pr_url = "https://pr";
  pr_number = 7;
  file_path = "app.py";
}

opened : (try_create_pr is_zero show host generate engine risky fix []).0 ≡ ok (some pr)
unfolding try_create_pr create_worktree PrEngine.perform PrEngine.run Commands.remove_worktree
    apply_patch_locally Commands.run_tests Commands.git_commit Commands.git_push first_chars
opened = refl

try_create_pr-IsVerified_example :
    (wt : String) × (error : String) × ((create_worktree host "/home/alice/b"
        (branch_name is_zero show host generate engine risky)
        []).0
      ≡ ok (some wt, error))
    × IsVerified host engine fix wt
try_create_pr-IsVerified_example =
    try_create_pr-IsVerified is_zero show host generate engine risky fix [] opened

abbrev report : EngineReport
report = record {
  scan_id = "scan-1";
  repo_path = "/home/alice/b";
  repo_url = "https://github.com/a/b";
  total_findings = 1;
  prs_opened = pr ∷ [];
  issues_opened = [];
  skipped = [];
}

reported : (process is_zero show host generate engine risky_scan []).0 ≡ ok report
unfolding process try_create_pr create_worktree PrEngine.perform PrEngine.run
    Commands.remove_worktree apply_patch_locally Commands.run_tests Commands.git_commit
    Commands.git_push first_chars
reported = refl

process_lem_example :
    (1 ≤ 10)
    × (accounted report ≤ length (open_findings risky_scan))
    × ((engine.open_issues ≡ true)
        ⊎ (length report.prs_opened ≡ engine.max_prs)
        ⊎ (accounted report ≡ length (open_findings risky_scan)))
    × (report.total_findings ≡ length risky_scan.findings)
process_lem_example = process_lem is_zero show host generate engine risky_scan [] reported
