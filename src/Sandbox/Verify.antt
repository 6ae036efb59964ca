-- ===== src/Sandbox/Verify.antt =====
-- SandboxOrchestrator of agent/sandbox.py: the verification of a patch, and the removal of
-- containers that were left behind.
use zerra.Prelude.{
  ℕ, ◌-◌, ◌+◌, String, Bool, false, not, Option, none, some, List, [], ◌∷◌, if◌then◌else◌, ◌+++◌,
  all, codes, last_chars, split_at, is_space, is_empty, filter, ◌==◌,
}
use zerra.Prelude.Results.{Error, ok, timeout_expired}
use zerra.Prelude.Effects.{negsuc, succeeded, Action, return, raise, ◌>>=◌, ◌>>◌, attempt, finally}
use zerra.Sandbox.{
  mkdtemp, copytree, rmtree, write_text, Host, Sandbox, SandboxResult, SandboxConfig,
  subprocess_run, touch, check_docker, detect_install_command, ended, named_result, install_argv,
  test_argv,
}

-- `not text.strip()`.
abbrev pub is_blank : String → Bool
is_blank text = all is_space (codes text)

-- `text.split()`.
abbrev words : String → List String
words text = filter (λ (word : String). not (is_empty word)) (split_at is_space text)

-- `text.splitlines()`, but for a last empty line, which has no words.
abbrev lines : String → List String
lines text = split_at (λ (c : ℕ). c == 10) text

-- The code after a step that may have returned.
abbrev pub resume :
    Action Sandbox SandboxResult → Option SandboxResult → Action Sandbox SandboxResult
resume next none = next
resume next (some result) = return result

abbrev pub set_volume : Option String → Action Sandbox (Unit {0})
set_volume name s = (ok tt, record s { deps_volume = name })

abbrev pub current : Action Sandbox Sandbox
current s = (ok s, s)

module _ (host : Host) where
  elapsed : ℕ → Sandbox → ℕ
  elapsed start s = host.clock s.log - start

  -- Step 2.
  unfoldable pub apply_patch : ℕ → String → Action Sandbox (Option SandboxResult)
  unfolding elapsed
  apply_patch start patch_diff = if is_blank patch_diff then return none else do
    touch host (write_text patch_diff)
    applied ← subprocess_run host ("git" ∷ "apply" ∷ "--whitespace=nowarn" ∷ host.patch_file ∷ [])
    s ← current
    return (
        if succeeded applied
        then none
        else some (
            ended host applied.returncode applied.stdout applied.stderr (elapsed start s)
              "Patch could not be applied"))

  -- Step 3, given the command that was detected.
  unfoldable pub install_with :
      SandboxConfig → ℕ → Option (List String) → Action Sandbox (Option SandboxResult)
  unfolding elapsed
  install_with config start none = set_volume none >> return none
  install_with config start (some install_cmd) = do
    dep_run ←
        subprocess_run host
          (install_argv host config ("zerra-deps-" +++ host.uuid "volume") install_cmd)
    s ← current
    return (
        if succeeded dep_run
        then none
        else some (
            ended host dep_run.returncode (last_chars 5000 dep_run.stdout)
              (last_chars 5000 dep_run.stderr) (elapsed start s) "Dependency installation failed"))

  unfoldable pub install_deps : SandboxConfig → ℕ → Action Sandbox (Option SandboxResult)
  unfolding install_with
  install_deps config start = do
    set_volume (some ("zerra-deps-" +++ host.uuid "volume"))
    install_with config start (detect_install_command host)

  -- `except subprocess.TimeoutExpired` of step 4.
  unfoldable pub timed_out : String → Error → Action Sandbox SandboxResult
  timed_out container_name timeout_expired = do
    subprocess_run host ("docker" ∷ "kill" ∷ container_name ∷ [])
    named_result host false (negsuc 0) "" "" container_name
  timed_out container_name e = raise e

  -- Step 4.
  unfoldable pub run_tests : SandboxConfig → Action Sandbox SandboxResult
  unfolding timed_out
  run_tests config = do
    let container_name = "zerra-sandbox-" +++ host.uuid "container"
    s ← current
    attempt
        (do
          result ← subprocess_run host (test_argv host config container_name s.deps_volume)
          named_result host (succeeded result) result.returncode (last_chars 10000 result.stdout)
              (last_chars 5000 result.stderr) container_name)
        (timed_out container_name)

  -- The `try` block, once the temporary directory is there.
  unfoldable pub verify_steps : SandboxConfig → String → ℕ → Action Sandbox SandboxResult
  unfolding apply_patch install_deps run_tests
  verify_steps config patch_diff start = do
    touch host copytree
    not_applied ← apply_patch start patch_diff
    resume (do not_installed ← install_deps config start; resume (run_tests config) not_installed)
        not_applied

  -- `except Exception`.
  unfoldable pub failed : ℕ → Error → Action Sandbox SandboxResult
  unfolding elapsed
  failed start e = do
    s ← current
    return (ended host (negsuc 0) "" "" (elapsed start s) (host.message e))

  unfoldable pub remove_volume : Option String → Action Sandbox (Unit {0})
  remove_volume none = return tt
  remove_volume (some deps_volume) =
      subprocess_run host ("docker" ∷ "volume" ∷ "rm" ∷ "-f" ∷ deps_volume ∷ []) >> return tt

  -- `finally`: the removal of the directory ignores its errors.
  unfoldable pub clean_up : Action Sandbox (Unit {0})
  unfolding remove_volume
  clean_up = do
    attempt (touch host rmtree) (λ (e : Error). return tt)
    s ← current
    remove_volume s.deps_volume

  unfoldable pub verify_in : SandboxConfig → String → ℕ → Action Sandbox SandboxResult
  unfolding verify_steps failed clean_up
  verify_in config patch_diff start =
      finally (attempt (verify_steps config patch_diff start) (failed start)) clean_up

  unfoldable pub verify_patch : SandboxConfig → String → Action Sandbox SandboxResult
  unfolding verify_in
  verify_patch config patch_diff = do
    set_volume none
    available ← check_docker host
    if available
        then (do s ← current; touch host mkdtemp; verify_in config patch_diff (host.clock s.log))
        else return (ended host (negsuc 0) "" "" 0 "Docker is not available on this host")

  -- One line of the listing: the container is killed and removed.
  remove_container : String → Action Sandbox ℕ
  remove_container line = elim (words line) [
    | [] ↦ return 0
    | container_id ∷ parts ↦ do
      subprocess_run host ("docker" ∷ "kill" ∷ container_id ∷ [])
      subprocess_run host ("docker" ∷ "rm" ∷ container_id ∷ [])
      return 1
  ]

  remove_containers : List String → ℕ → Action Sandbox ℕ
  unfolding remove_container
  remove_containers [] removed = return removed
  remove_containers (line ∷ rest) removed = do
    more ← remove_container line
    remove_containers rest (removed + more)

  unfoldable pub cleanup_stale_containers : ℕ → Action Sandbox ℕ
  unfolding remove_containers
  cleanup_stale_containers max_age_minutes = do
    available ← check_docker host
    if available
        then attempt
            (do
              result ← subprocess_run host (
                  "docker" ∷ "ps" ∷ "-a" ∷ "--filter" ∷ "label=zerra.sandbox=true" ∷ "--filter"
                  ∷ "status=running" ∷ "--format" ∷ "{{.ID}} {{.CreatedAt}}" ∷ [])
              remove_containers (lines result.stdout) 0)
            (λ (e : Error). return 0)
        else return 0
