-- ===== src/PrEngine/Process.antt =====
-- PREngine of agent/pr_engine.py: the loop over the findings, one finding's pull request, and its
-- issue.
use zerra.Prelude.{
  ℕ, zero, suc, String, Bool, true, false, not, ◌||◌, Option, none, some, List, [], ◌∷◌, ◌++◌,
  if◌then◌else◌, ◌==◌, leb, ◌+++◌, filter, length, starts_with, occurs_in, str_eq, split_at, truthy,
  or_else, strip_slashes, first_chars, without,
}
use zerra.Prelude.Results.{Error, Result, err, ok, value_error}
use zerra.Prelude.Effects.{Action, return, ◌>>=◌, attempt, finally}
use zerra.ScanModels.{
  is_open, severity_value, VulnerabilityType, Finding, FixSuggestion, ScanResult,
}
use zerra.PrEngine.{pull_request, issue, Log, Host, test_not_found, perform, apply_patch_locally}
use zerra.PrEngine.Commands.{run_tests, git_commit, git_push, create_worktree, remove_worktree}
use zerra.PrEngine.Bodies.{
  vulnerability_type_value, severity_upper, text_or, line_or, build_pr_body, build_issue_body,
}

pub record PrResult : Type 0 where
  pub finding_id : String
  pub finding_title : String
  pub branch : String
  pub pr_url : String
  pub pr_number : ℕ
  pub file_path : String

pub record IssueResult : Type 0 where
  pub finding_id : String
  pub finding_title : String
  pub issue_url : String
  pub issue_number : ℕ

-- A skipped finding is its id and the reason.
pub record EngineReport : Type 0 where
  pub scan_id : String
  pub repo_path : String
  pub repo_url : String
  pub total_findings : ℕ
  pub prs_opened : List PrResult
  pub issues_opened : List IssueResult
  pub skipped : List (String × String)

pub record PrEngine : Type 0 where
  pub token : String
  pub repo_url : String
  pub repo_path : String
  pub base_branch : String
  pub max_prs : ℕ
  pub run_tests : Bool
  pub open_issues : Bool
  pub owner : String
  pub repo : String

-- `re.sub(r"https?://github\.com/", "", url)`, after `skip` characters.
without_host_from : ℕ → String → String
without_host_from skip String.[] = ""
without_host_from (suc skip) (String.◌∷◌ c s) = without_host_from skip s
without_host_from zero (String.◌∷◌ c s) =
    let secure = without_host_from 18 s in
    let plain = without_host_from 17 s in
    let rest = without_host_from zero s in
    if starts_with (String.◌∷◌ c s) "https://github.com/"
    then secure
    else if starts_with (String.◌∷◌ c s) "http://github.com/"
    then plain
    else String.◌∷◌ c rest

-- `url.replace("git@github.com:", "github.com/")` is a split and a join.
replaced_host_from : ℕ → String → String
replaced_host_from skip String.[] = ""
replaced_host_from (suc skip) (String.◌∷◌ c s) = replaced_host_from skip s
replaced_host_from zero (String.◌∷◌ c s) =
    let found = replaced_host_from 14 s in
    let rest = replaced_host_from zero s in
    if starts_with (String.◌∷◌ c s) "git@github.com:"
    then "github.com/" +++ found
    else String.◌∷◌ c rest

last_two : String → List String → Result (String × String)
last_two url [] = err (value_error ("Cannot parse owner/repo from: " +++ url))
last_two url (part ∷ []) = err (value_error ("Cannot parse owner/repo from: " +++ url))
last_two url (owner ∷ repo ∷ []) = ok (owner, repo)
last_two url (part ∷ owner ∷ repo ∷ parts) = last_two url (owner ∷ repo ∷ parts)

unfoldable pub parse_owner_repo : String → Result (String × String)
unfolding without_host_from replaced_host_from last_two
parse_owner_repo repo_url =
    if not (occurs_in "/" (strip_slashes repo_url))
    then err (value_error ("Cannot parse owner/repo from: " +++ repo_url))
    else last_two repo_url (
        split_at (λ (c : ℕ). c == b'/')
          (without ".git" (without_host_from 0 (replaced_host_from 0 (strip_slashes repo_url)))))

unfoldable pub with_issue : EngineReport → Option IssueResult → EngineReport
with_issue report none = report
with_issue report (some result) = record report {
  issues_opened = report.issues_opened ++ result ∷ [];
}

-- `PREngine(...)`, with the text of an exception.
unfoldable pub opened_for : (Error → String) → PrEngine → Result (String × String) → Result PrEngine
opened_for message engine (err e) = err (value_error ("Invalid repo URL: " +++ message e))
opened_for message engine (ok (owner, repo)) = ok (record engine { owner = owner; repo = repo })

unfoldable pub open_engine :
    (Error → String) → String → String → String → String → ℕ → Bool → Bool → Result PrEngine
unfolding opened_for
open_engine message token repo_url repo_path base_branch max_prs run_tests open_issues =
    opened_for message
      (record {
        token = token;
        repo_url = repo_url;
        repo_path = repo_path;
        base_branch = base_branch;
        max_prs = max_prs;
        run_tests = run_tests;
        open_issues = open_issues;
        owner = "";
        repo = "";
      })
      (parse_owner_repo repo_url)

module _ {F : Type 0} where
  abbrev pub open_findings : ScanResult F → List (Finding F)
  open_findings r = filter (λ (f : Finding F). is_open f.status) r.findings

module _ {F : Type 0} (is_zero : F → Bool) (one_decimal : F → String) (host : Host)
    (generate_fix : Finding F → Option FixSuggestion) where
  commit_message : Finding F → String
  commit_message finding =
      "fix: "
      +++ finding.title
      +++ "\n\n"
      +++ "Security fix applied by Zerra.\n"
      +++ "Vulnerability: "
      +++ vulnerability_type_value finding.vulnerability_type
      +++ "\n"
      +++ "Severity: "
      +++ severity_upper finding.severity
      +++ "\n"
      +++ "File: "
      +++ or_else finding.file_path "None"
      +++ ":"
      +++ line_or finding.line_start
      +++ "\n"
      +++ "CWE: "
      +++ text_or finding.cwe_id "N/A"
      +++ "\n"
      +++ "Finding-ID: "
      +++ finding.id

  module _ (engine : PrEngine) where
    unfoldable pub branch_name : Finding F → String
    branch_name finding = "zerra/fix-" +++ first_chars 8 finding.id

    -- Steps 4 to 6: commit, push, and the pull request.
    unfoldable pub publish : Finding F → FixSuggestion → String → Action Log (Option PrResult)
    unfolding commit_message branch_name
    publish finding fix wt_path = do
      committed ← git_commit host wt_path fix.file_path (commit_message finding)
      if not committed.0 then return none else do
        pushed ← git_push host wt_path (branch_name finding) engine.repo_url engine.token
        if not pushed.0 then return none else do
          let request =
              pull_request ("fix(" +++ severity_value finding.severity +++ "): " +++ finding.title)
                (build_pr_body is_zero one_decimal finding fix) (branch_name finding)
          pr ← perform host (λ (log : Log). host.create_pull_request log request) request
          return (
              some (record {
                finding_id = finding.id;
                finding_title = finding.title;
                branch = branch_name finding;
                pr_url = pr.html_url;
                pr_number = pr.number;
                file_path = fix.file_path;
              }))

    -- Step 3: whether to go on.
    unfoldable pub verified : String → Action Log Bool
    verified wt_path =
        if engine.run_tests
        then (do
          tested ← run_tests host wt_path
          return (tested.0 || str_eq tested.1 test_not_found))
        else return true

    unfoldable pub if_verified :
        Finding F → FixSuggestion → String → Bool → Action Log (Option PrResult)
    unfolding publish
    if_verified finding fix wt_path true = publish finding fix wt_path
    if_verified finding fix wt_path false = return none

    unfoldable pub after_patch :
        Finding F → FixSuggestion → String → Bool × String → Action Log (Option PrResult)
    unfolding verified if_verified
    after_patch finding fix wt_path (true, error) = do
      passed ← verified wt_path
      if_verified finding fix wt_path passed
    after_patch finding fix wt_path (false, error) = return none

    -- Steps 2 to 6.
    unfoldable pub fix_in : Finding F → FixSuggestion → String → Action Log (Option PrResult)
    unfolding after_patch
    fix_in finding fix wt_path = do
      applied ← apply_patch_locally host wt_path fix
      after_patch finding fix wt_path applied

    unfoldable pub in_worktree :
        Finding F → FixSuggestion → Option String → Action Log (Option PrResult)
    unfolding fix_in
    in_worktree finding fix none = return none
    in_worktree finding fix (some wt_path) =
        finally (attempt (fix_in finding fix wt_path) (λ (e : Error). return none))
          (remove_worktree host engine.repo_path wt_path)

    unfoldable pub try_create_pr : Finding F → FixSuggestion → Action Log (Option PrResult)
    unfolding in_worktree branch_name
    try_create_pr finding fix = do
      created ← create_worktree host engine.repo_path (branch_name finding)
      in_worktree finding fix created.0

    labels : Finding F → List String
    labels finding =
        "security"
        ∷ ("security:" +++ severity_value finding.severity)
        ∷ elim finding.vulnerability_type [
          | VulnerabilityType.secret ↦ "secret-leak" ∷ []
          | VulnerabilityType.sca ↦ "dependencies" ∷ []
          | _ ↦ []
        ]

    unfoldable pub create_issue : Finding F → Action Log (Option IssueResult)
    unfolding labels
    create_issue finding =
        let posted =
          issue ("[Security] " +++ finding.title) (build_issue_body finding) (labels finding) in
        attempt
          (do
            opened ← perform host (λ (log : Log). host.post_issue log posted) posted
            return (
                some (record {
                  finding_id = finding.id;
                  finding_title = finding.title;
                  issue_url = opened.html_url;
                  issue_number = opened.number;
                })))
          (λ (e : Error). return none)

    -- No fix, or no pull request.
    unfoldable pub fall_back : EngineReport → Finding F → Action Log EngineReport
    unfolding with_issue
    fall_back report finding =
        if engine.open_issues
        then (do result ← create_issue finding; return (with_issue report result))
        else return
            (record report { skipped = report.skipped ++ (finding.id, "No fix available") ∷ [] })

    unfoldable pub after_attempt :
        EngineReport → Finding F → Option PrResult → Action Log EngineReport
    unfolding fall_back
    after_attempt report finding none = fall_back report finding
    after_attempt report finding (some result) =
        return (record report { prs_opened = report.prs_opened ++ result ∷ [] })

    unfoldable pub attempted : Finding F → Option FixSuggestion → Action Log (Option PrResult)
    attempted finding none = return none
    attempted finding (some fix) = try_create_pr finding fix

    -- One round of the loop.
    unfoldable pub process_one : EngineReport → Finding F → Action Log EngineReport
    unfolding after_attempt attempted
    process_one report finding =
        if not (truthy finding.file_path) || not (truthy finding.code_snippet)
        then return (record report {
          skipped = report.skipped ++ (finding.id, "No file path or code snippet") ∷ [];
        })
        else (do
          result ← attempted finding (generate_fix finding)
          after_attempt report finding result)

    -- `pr_count` is the number of pull requests in the report.
    unfoldable pub process_from : EngineReport → List (Finding F) → Action Log EngineReport
    unfolding process_one
    process_from report [] = return report
    process_from report (finding ∷ rest) =
        if leb engine.max_prs (length report.prs_opened)
        then return report
        else (do next ← process_one report finding; process_from next rest)

    unfoldable pub start_report : ScanResult F → EngineReport
    start_report r = record {
      scan_id = r.id;
      repo_path = engine.repo_path;
      repo_url = engine.repo_url;
      total_findings = length r.findings;
      prs_opened = [];
      issues_opened = [];
      skipped = [];
    }

    unfoldable pub process : ScanResult F → Action Log EngineReport
    unfolding start_report process_from
    process r = process_from (start_report r) (open_findings r)
