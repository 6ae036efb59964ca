-- ===== src/PrEngine/Verified.antt =====
-- PREngine._try_create_pr of agent/pr_engine.py: what a pull request went through.
use zerra.Prelude.{
  List, first_chars, ◌+++◌, ◌≡◌, refl, String, Bool, true, false, ◌||◌, Option, none, some, str_eq,
  str_eq_iff, ◌⊎◌, inl, inr, Bool-cases, sym, ap, ◌∙◌, if-true,
}
use zerra.Prelude.Results.{Result, ok, err, ok-injective, timeout_expired, file_not_found}
use zerra.Prelude.Effects.{
  Completed, succeeded, Action, return, continue, handle, continue-eq-ok, settle-eq-ok,
  handle-eq-some,
}
use zerra.ScanModels.{Finding, FixSuggestion}
use zerra.PrEngine.{Log, Host, run, test_not_found, apply_patch_locally}
use zerra.PrEngine.Commands.{
  run_tests, detect_test_command, run_command, tests_failed, create_worktree,
}
use zerra.PrEngine.Process.{
  PrResult, PrEngine, verified, if_verified, after_patch, fix_in, in_worktree, try_create_pr,
  branch_name,
}

-- What lets a run of the tests' command through: an exit code of 0, no such program, or a text that
-- reads like the answer for no such program.
abbrev pub IsLetThrough : Result Completed → Type 0
IsLetThrough (ok result) =
    (succeeded result ≡ true)
    ⊎ (first_chars 2000 (result.stdout +++ result.stderr) ≡ test_not_found)
IsLetThrough (err (file_not_found name)) = Unit
IsLetThrough (err e) = ⊥

-- No command was found to run tests with, or the one that was found was run in the directory.
abbrev pub WasTested : Host → String → Log → Type 0
WasTested host wt log =
    ((detect_test_command host wt log).0 ≡ ok none)
    ⊎ ((cmd : List String) × ((detect_test_command host wt log).0 ≡ ok (some cmd))
        × IsLetThrough (run host cmd wt (detect_test_command host wt log).1).0)

-- The fix was applied in the directory, and then it was tested, or tests are switched off.
abbrev pub IsVerified : Host → PrEngine → FixSuggestion → String → Type 0
IsVerified host engine fix wt =
    (before : Log) × (message : String) × ((apply_patch_locally host wt fix before).0
      ≡ ok (true, message))
    × ((engine.run_tests ≡ false) ⊎ WasTested host wt (apply_patch_locally host wt fix before).1)

passes :
    (passed : Bool) (output : String)
    → (passed || str_eq output test_not_found) ≡ true
    → (passed ≡ true) ⊎ (output ≡ test_not_found)
passes true output h = inl refl
passes false output h = inr ((str_eq_iff output test_not_found).0 h)

module _ (host : Host) (wt : String) where
  let_through :
      (r : Result Completed × Log) {tested : Bool × String}
      → (handle (tests_failed host) (
          continue
            (λ (result : Completed).
              return (succeeded result, first_chars 2000 (result.stdout +++ result.stderr)))
            r)).0
        ≡ ok tested
      → (tested.0 || str_eq tested.1 test_not_found) ≡ true
      → IsLetThrough r.0
  unfolding tests_failed
  let_through (ok result, log) {tested} answer went =
      passes _ _ (rw (← ok-injective answer) at went)
  let_through (err timeout_expired, log) {tested} answer went =
      let refused : (false || str_eq "Test suite timed out (120s)" test_not_found) ≡ true =
        rw (← ok-injective answer) at went in
      cc
  let_through (err (file_not_found name), log) answer went = tt
  let_through (err e, log) answer went = cc

  command-WasTested :
      (log after : Log) (cmd : Option (List String)) {tested : Bool × String}
      → detect_test_command host wt log ≡ (ok cmd, after)
      → (run_command host wt cmd after).0 ≡ ok tested
      → (tested.0 || str_eq tested.1 test_not_found) ≡ true
      → WasTested host wt log
  unfolding run_command
  command-WasTested log after none detected answer went =
      inl (ap (λ (r : Result (Option (List String)) × Log). r.0) detected)
  command-WasTested log after (some cmd) detected answer went = inr (
    cmd,
    ap (λ (r : Result (Option (List String)) × Log). r.0) detected,
    rw detected (let_through (run host cmd wt after) answer went),
  )

  run_tests-WasTested :
      (log : Log) {tested : Bool × String}
      → (run_tests host wt log).0 ≡ ok tested
      → (tested.0 || str_eq tested.1 test_not_found) ≡ true
      → WasTested host wt log
  unfolding run_tests
  run_tests-WasTested log answer went =
      let (cmd, detected, ran) =
        continue-eq-ok (run_command host wt) (detect_test_command host wt log) answer in
      command-WasTested log (detect_test_command host wt log).1 cmd
        (ap (λ (r : Result (Option (List String))). (r, (detect_test_command host wt log).1))
          detected)
        ran went

module _ {F : Type 0} (is_zero : F → Bool) (one_decimal : F → String) (host : Host)
    (generate_fix : Finding F → Option FixSuggestion) (engine : PrEngine) where
  -- With the tests switched on.
  tested-passed :
      (wt : String) (log : Log)
      → (continue
          (λ (tested : Bool × String). return (tested.0 || str_eq tested.1 test_not_found))
          (run_tests host wt log)).0
        ≡ ok true
      → WasTested host wt log
  tested-passed wt log returns =
      let (tested, ran, went) =
        continue-eq-ok (λ (t : Bool × String). return (t.0 || str_eq t.1 test_not_found))
          (run_tests host wt log) returns in
      run_tests-WasTested host wt log ran (ok-injective went)

  verified-passed :
      (wt : String) (log : Log)
      → (verified is_zero one_decimal host generate_fix engine wt log).0 ≡ ok true
      → (engine.run_tests ≡ false) ⊎ WasTested host wt log
  unfolding verified
  verified-passed wt log returns = elim (Bool-cases engine.run_tests) [
    | inr off ↦ inl off
    | inl on ↦ inr (
        tested-passed wt log (
          sym (ap (λ (a : Action Log Bool). (a log).0) (if-true engine.run_tests _ _ on))
          ∙ returns))
  ]

  if_verified-passed :
      (finding : Finding F) (fix : FixSuggestion) (wt : String) (passed : Bool) (log : Log)
      {pr : PrResult}
      → (if_verified is_zero one_decimal host generate_fix engine finding fix wt passed log).0
        ≡ ok (some pr)
      → passed ≡ true
  unfolding if_verified
  if_verified-passed finding fix wt true log returns = refl
  if_verified-passed finding fix wt false log returns = cc

  after_patch-IsVerified :
      (finding : Finding F) (fix : FixSuggestion) (wt : String) (before : Log)
      (applied : Bool × String) {pr : PrResult}
      → (apply_patch_locally host wt fix before).0 ≡ ok applied
      → (after_patch is_zero one_decimal host generate_fix engine finding fix wt applied
          (apply_patch_locally host wt fix before).1).0
        ≡ ok (some pr)
      → IsVerified host engine fix wt
  unfolding after_patch
  after_patch-IsVerified finding fix wt before (false, error) ran returns = cc
  after_patch-IsVerified finding fix wt before (true, error) ran returns =
      let after = (apply_patch_locally host wt fix before).1 in
      let (passed, checked, published) =
        continue-eq-ok (if_verified is_zero one_decimal host generate_fix engine finding fix wt)
          (verified is_zero one_decimal host generate_fix engine wt after) returns in
      let went = if_verified-passed finding fix wt passed _ published in
      (before, error, ran, verified-passed wt after (checked ∙ ap (λ (b : Bool). ok b) went))

  fix_in-IsVerified :
      (finding : Finding F) (fix : FixSuggestion) (wt : String) (log : Log) {pr : PrResult}
      → (fix_in is_zero one_decimal host generate_fix engine finding fix wt log).0 ≡ ok (some pr)
      → IsVerified host engine fix wt
  unfolding fix_in
  fix_in-IsVerified finding fix wt log returns =
      let (applied, ran, went) =
        continue-eq-ok (after_patch is_zero one_decimal host generate_fix engine finding fix wt)
          (apply_patch_locally host wt fix log) returns in
      after_patch-IsVerified finding fix wt log applied ran went

  in_worktree-IsVerified :
      (finding : Finding F) (fix : FixSuggestion) (created : Option String) (log : Log)
      {pr : PrResult}
      → (in_worktree is_zero one_decimal host generate_fix engine finding fix created log).0
        ≡ ok (some pr)
      → (wt : String) × (created ≡ some wt) × IsVerified host engine fix wt
  unfolding in_worktree
  in_worktree-IsVerified finding fix none log returns = cc
  in_worktree-IsVerified finding fix (some wt) log returns = (
    wt,
    refl,
    fix_in-IsVerified finding fix wt log (
        handle-eq-some (fix_in is_zero one_decimal host generate_fix engine finding fix wt log)
          (settle-eq-ok _ _ returns)),
  )

  -- A pull request that a fix comes to was opened from a worktree in which the fix was applied and,
  -- after that, one of these holds: the engine does not run tests; no command for a test suite was
  -- found in it; the command that was found was run in it and ended with code 0; its program is not
  -- installed; or it failed and printed, in the first 2000 characters, the text that stands for a
  -- program that is not installed.
  pub try_create_pr-IsVerified :
      (finding : Finding F) (fix : FixSuggestion) (log : Log) {pr : PrResult}
      → (try_create_pr is_zero one_decimal host generate_fix engine finding fix log).0
        ≡ ok (some pr)
      → (wt : String) × (error : String) × ((create_worktree host engine.repo_path
            (branch_name is_zero one_decimal host generate_fix engine finding)
            log).0
          ≡ ok (some wt, error))
        × IsVerified host engine fix wt
  unfolding try_create_pr
  try_create_pr-IsVerified finding fix log returns =
      let (created, made, went) =
        continue-eq-ok
          (λ (c : Option String × String).
            in_worktree is_zero one_decimal host generate_fix engine finding fix c.0)
          (create_worktree host engine.repo_path
            (branch_name is_zero one_decimal host generate_fix engine finding) log)
          returns in
      let (wt, same, checked) = in_worktree-IsVerified finding fix created.0 _ went in
      (wt, created.1, made ∙ ap (λ (o : Option String). ok (o, created.1)) same, checked)
