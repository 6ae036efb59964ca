-- ===== src/PrEngine/Commands.antt =====
-- agent/pr_engine.py: the test run, and the git commands of a fix.
use zerra.Prelude.{
  String, Bool, true, false, not, ◌||◌, Option, none, some, List, [], ◌∷◌, if◌then◌else◌, ◌+++◌,
  occurs_in, strip, first_chars,
}
use zerra.Prelude.Results.{Error, Result, err, ok, timeout_expired, file_not_found}
use zerra.Prelude.Effects.{succeeded, Action, return, raise, ◌>>=◌, ◌>>◌, attempt}
use zerra.PrEngine.{mkdtemp, rmdir, rmtree, Log, Host, path_join, test_not_found, perform, run}

module _ (host : Host) where
  -- The repository has a package.json, which may not parse.
  npm_command : Result Bool → List String
  npm_command (ok true) = "npm" ∷ "test" ∷ "--" ∷ "--passWithNoTests" ∷ []
  npm_command r = "npm" ∷ "test" ∷ "--passWithNoTests" ∷ []

  abbrev pytest_command : List String
  pytest_command = "python" ∷ "-m" ∷ "pytest" ∷ "--tb=short" ∷ "-q" ∷ "--timeout=30" ∷ []

  unfoldable pub make_command : String → Action Log (Option (List String))
  make_command p = do
    result ← run host ("grep" ∷ "-q" ∷ "^test:" ∷ "Makefile" ∷ []) p
    return (if succeeded result then some ("make" ∷ "test" ∷ []) else none)

  -- `_detect_test_command`, with the files that are there.
  unfoldable pub detect_among :
      (String → Bool) → Result Bool → String → Action Log (Option (List String))
  unfolding npm_command make_command
  detect_among exists has_script p =
      if exists "package.json"
      then return (some (npm_command has_script))
      else if exists "pytest.ini" || (exists "pyproject.toml" || exists "setup.py")
      then return (some pytest_command)
      else if exists "requirements.txt"
      then return (some pytest_command)
      else if exists "go.mod"
      then return (some ("go" ∷ "test" ∷ "./..." ∷ "-timeout" ∷ "30s" ∷ []))
      else if exists "Makefile"
      then make_command p
      else return none

  unfoldable pub detect_test_command : String → Action Log (Option (List String))
  unfolding detect_among
  detect_test_command p log =
      detect_among (λ (file : String). host.exists log (path_join p file))
        (host.has_test_script log (path_join p "package.json")) p log

  -- The handlers of `_run_tests`.
  unfoldable pub tests_failed : Error → Action Log (Bool × String)
  tests_failed timeout_expired = return (false, "Test suite timed out (120s)")
  tests_failed (file_not_found name) = return (false, test_not_found)
  tests_failed e = raise e

  unfoldable pub run_command : String → Option (List String) → Action Log (Bool × String)
  unfolding tests_failed
  run_command repo_path none = return (true, "No test suite detected")
  run_command repo_path (some cmd) =
      attempt
        (do
          result ← run host cmd repo_path
          return (succeeded result, first_chars 2000 (result.stdout +++ result.stderr)))
        tests_failed

  unfoldable pub run_tests : String → Action Log (Bool × String)
  unfolding detect_test_command run_command
  run_tests repo_path = do cmd ← detect_test_command repo_path; run_command repo_path cmd

  unfoldable pub git_commit : String → String → String → Action Log (Bool × String)
  git_commit repo_path file_path message = do
    added ← run host ("git" ∷ "add" ∷ file_path ∷ []) repo_path
    if not (succeeded added) then return (false, "git add failed: " +++ added.stderr) else do
      r ←
          run host
            ("git" ∷ "commit" ∷ "-m" ∷ message ∷ "--author"
              ∷ "Zerra Security Bot <zerra-bot@localhost>" ∷ [])
            repo_path
      return (if succeeded r then (true, "") else (false, "git commit failed: " +++ r.stderr))

  unfoldable pub auth_url : String → String → String
  auth_url remote_url token =
      if occurs_in "github.com" remote_url then host.with_token token remote_url else remote_url

  unfoldable pub git_push : String → String → String → String → Action Log (Bool × String)
  unfolding auth_url
  git_push repo_path branch remote_url token = do
    r ←
        run host ("git" ∷ "push" ∷ auth_url remote_url token ∷ ("HEAD:refs/heads/" +++ branch) ∷ [])
          repo_path
    return (if succeeded r then (true, "") else (false, "git push failed: " +++ r.stderr))

  -- `wt_root.rmdir()`, whose failure leaves the function.
  unfoldable pub remove_directory : String → Action Log (Unit {0})
  remove_directory path =
      perform host (λ (log : Log). elim (host.rmdir_fails log) [ none ↦ ok tt | some e ↦ err e ])
        (rmdir path)

  unfoldable pub create_worktree : String → String → Action Log (Option String × String)
  unfolding remove_directory
  create_worktree repo_path branch = do
    wt_root ← perform host host.temporary mkdtemp
    r ← run host ("git" ∷ "worktree" ∷ "add" ∷ "-b" ∷ branch ∷ wt_root ∷ []) repo_path
    if succeeded r
        then return (some wt_root, "")
        else (remove_directory wt_root >> return (none, strip r.stderr))

  -- The removal of the directory ignores its errors.
  unfoldable pub remove_worktree : String → String → Action Log (Unit {0})
  remove_worktree repo_path wt_path = do
    run host ("git" ∷ "worktree" ∷ "remove" ∷ "--force" ∷ wt_path ∷ []) repo_path
    run host ("git" ∷ "worktree" ∷ "prune" ∷ []) repo_path
    λ log. (ok tt, rmtree wt_path ∷ log)
