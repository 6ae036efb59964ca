-- ===== src/PrEngine/Isolation.antt =====
-- PREngine of agent/pr_engine.py: what a run leaves alone.
use zerra.Prelude.{
  ◌≡◌, refl, String, Bool, true, false, not, ◌||◌, Option, none, some, List, [], ◌∷◌, All, truthy,
  leb, length,
}
use zerra.Prelude.Effects.{
  Keeps, Keeps-return, Keeps->>=, Keeps-chain, Keeps-attempt, Keeps-finally, Keeps-if,
}
use zerra.ScanModels.{Finding, FixSuggestion, ScanResult}
use zerra.PrEngine.{pull_request, issue, Host}
use zerra.PrEngine.Process.{
  PrResult, EngineReport, PrEngine, publish, verified, if_verified, after_patch, fix_in,
  in_worktree, try_create_pr, create_issue, fall_back, after_attempt, attempted, process_one,
  process_from, process, open_findings,
}
use zerra.PrEngine.Worktrees.{
  IsTemporary, is_inside, IsOutside, IsWorktree, AllOutside, perform-Keeps,
  apply_patch_locally-Keeps, run_tests-Keeps, git_commit-Keeps, git_push-Keeps,
  create_worktree-Yields, create_worktree-Keeps, remove_worktree-Keeps,
}

module _ {F : Type 0} (is_zero : F → Bool) (one_decimal : F → String) (host : Host)
    (generate_fix : Finding F → Option FixSuggestion) (engine : PrEngine) where
  publish-Keeps :
      (finding : Finding F) (fix : FixSuggestion) (wt : String)
      → IsTemporary host wt
      → Keeps
          (AllOutside host engine)
          (publish is_zero one_decimal host generate_fix engine finding fix wt)
  unfolding publish
  publish-Keeps finding fix wt temporary =
      Keeps->>= (git_commit-Keeps host engine wt temporary fix.file_path _) (λ committed.
        Keeps-if (not committed.0) (Keeps-return none) (
          Keeps->>= (git_push-Keeps host engine wt temporary _ engine.repo_url engine.token)
            (λ pushed. Keeps-if (not pushed.0) (Keeps-return none) (
              Keeps->>= (perform-Keeps host engine _ (pull_request _ _ _) tt)
                (λ pr. Keeps-return _)))))

  verified-Keeps :
      (wt : String)
      → IsTemporary host wt
      → Keeps (AllOutside host engine) (verified is_zero one_decimal host generate_fix engine wt)
  unfolding verified
  verified-Keeps wt temporary =
      Keeps-if engine.run_tests
        (Keeps->>= (run_tests-Keeps host engine wt temporary) (λ tested. Keeps-return _))
        (Keeps-return true)

  if_verified-Keeps :
      (finding : Finding F) (fix : FixSuggestion) (wt : String) (passed : Bool)
      → IsTemporary host wt
      → Keeps
          (AllOutside host engine)
          (if_verified is_zero one_decimal host generate_fix engine finding fix wt passed)
  unfolding if_verified
  if_verified-Keeps finding fix wt true temporary = publish-Keeps finding fix wt temporary
  if_verified-Keeps finding fix wt false temporary = Keeps-return none

  after_patch-Keeps :
      (finding : Finding F) (fix : FixSuggestion) (wt : String) (applied : Bool × String)
      → IsTemporary host wt
      → Keeps
          (AllOutside host engine)
          (after_patch is_zero one_decimal host generate_fix engine finding fix wt applied)
  unfolding after_patch
  after_patch-Keeps finding fix wt (true, error) temporary =
      Keeps->>= (verified-Keeps wt temporary)
        (λ passed. if_verified-Keeps finding fix wt passed temporary)
  after_patch-Keeps finding fix wt (false, error) temporary = Keeps-return none

  fix_in-Keeps :
      (finding : Finding F) (fix : FixSuggestion) (wt : String)
      → IsTemporary host wt
      → is_inside fix.file_path ≡ true
      → Keeps
          (AllOutside host engine)
          (fix_in is_zero one_decimal host generate_fix engine finding fix wt)
  unfolding fix_in
  fix_in-Keeps finding fix wt temporary relative =
      Keeps->>= (apply_patch_locally-Keeps host engine wt temporary fix relative)
        (λ applied. after_patch-Keeps finding fix wt applied temporary)

  in_worktree-Keeps :
      (finding : Finding F) (fix : FixSuggestion) (created : Option String × String)
      → is_inside fix.file_path ≡ true
      → IsWorktree host created
      → Keeps
          (AllOutside host engine)
          (in_worktree is_zero one_decimal host generate_fix engine finding fix created.0)
  unfolding in_worktree
  in_worktree-Keeps finding fix (none, error) relative h = Keeps-return none
  in_worktree-Keeps finding fix (some wt, error) relative temporary =
      Keeps-finally
        (Keeps-attempt (fix_in-Keeps finding fix wt temporary relative) (λ e. Keeps-return none))
        (remove_worktree-Keeps host engine wt temporary)

  try_create_pr-Keeps :
      (finding : Finding F) (fix : FixSuggestion)
      → is_inside fix.file_path ≡ true
      → Keeps
          (AllOutside host engine)
          (try_create_pr is_zero one_decimal host generate_fix engine finding fix)
  unfolding try_create_pr
  try_create_pr-Keeps finding fix relative =
      Keeps-chain {R = IsWorktree host} (create_worktree-Keeps host engine _)
        (create_worktree-Yields host engine _)
        (λ created h. in_worktree-Keeps finding fix created relative h)

  create_issue-Keeps :
      (finding : Finding F)
      → Keeps
          (AllOutside host engine)
          (create_issue is_zero one_decimal host generate_fix engine finding)
  unfolding create_issue
  create_issue-Keeps finding =
      Keeps-attempt
        (Keeps->>= (perform-Keeps host engine _ (issue _ _ _) tt) (λ opened. Keeps-return _))
        (λ e. Keeps-return none)

  fall_back-Keeps :
      (report : EngineReport) (finding : Finding F)
      → Keeps
          (AllOutside host engine)
          (fall_back is_zero one_decimal host generate_fix engine report finding)
  unfolding fall_back
  fall_back-Keeps report finding =
      Keeps-if engine.open_issues
        (Keeps->>= (create_issue-Keeps finding) (λ result. Keeps-return _)) (search Keeps-return)

  after_attempt-Keeps :
      (report : EngineReport) (finding : Finding F) (result : Option PrResult)
      → Keeps
          (AllOutside host engine)
          (after_attempt is_zero one_decimal host generate_fix engine report finding result)
  unfolding after_attempt
  after_attempt-Keeps report finding none = fall_back-Keeps report finding
  after_attempt-Keeps report finding (some result) = search Keeps-return

  -- A fix names a file inside the repository.
  module _
      (relative : (finding : Finding F) (fix : FixSuggestion)
        → generate_fix finding ≡ some fix
        → is_inside fix.file_path ≡ true) where
    attempted-Keeps :
        (finding : Finding F) (generated : Option FixSuggestion)
        → generate_fix finding ≡ generated
        → Keeps
            (AllOutside host engine)
            (attempted is_zero one_decimal host generate_fix engine finding generated)
    unfolding attempted
    attempted-Keeps finding none same = Keeps-return none
    attempted-Keeps finding (some fix) same =
        try_create_pr-Keeps finding fix (relative finding fix same)

    process_one-Keeps :
        (report : EngineReport) (finding : Finding F)
        → Keeps
            (AllOutside host engine)
            (process_one is_zero one_decimal host generate_fix engine report finding)
    unfolding process_one
    process_one-Keeps report finding =
        Keeps-if (not (truthy finding.file_path) || not (truthy finding.code_snippet))
          (search Keeps-return)
          (Keeps->>= (attempted-Keeps finding (generate_fix finding) refl)
            (λ result. after_attempt-Keeps report finding result))

    process_from-Keeps :
        (report : EngineReport) (findings : List (Finding F))
        → Keeps
            (AllOutside host engine)
            (process_from is_zero one_decimal host generate_fix engine report findings)
    unfolding process_from
    process_from-Keeps report [] = Keeps-return report
    process_from-Keeps report (finding ∷ rest) =
        Keeps-if (leb engine.max_prs (length report.prs_opened)) (Keeps-return report)
          (Keeps->>= (process_one-Keeps report finding) (λ next. process_from-Keeps next rest))

    -- Whatever git, the tests and GitHub answer: a whole run starts commands in temporary
    -- directories only, but for `git worktree` in the repository, writes files inside temporary
    -- directories only, and removes temporary directories only. It needs that a fix names its file
    -- by a relative path none of whose parts is "..".
    pub process-IsOutside :
        (r : ScanResult F)
        → All (IsOutside host engine) (process is_zero one_decimal host generate_fix engine r []).1
    unfolding process AllOutside
    process-IsOutside r = (process_from-Keeps _ (open_findings r)).kept [] tt
