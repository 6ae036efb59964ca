-- ===== src/Sandbox/Outcomes.antt =====
-- agent/sandbox.py: what a verification comes to.
use zerra.Prelude.{
  ◌≡◌, refl, String, Bool, true, false, Option, none, some, List, [], ◌∷◌, ℕ, ◌+++◌, last_chars,
  if◌then◌else◌,
}
use zerra.Prelude.Results.{Error, ok, timeout_expired}
use zerra.Prelude.Effects.{
  ℤ, negsuc, Action, return, Yields, Yields-return, Yields-raise, Yields->>=, Yields-chain,
  Yields-attempt, Yields-finally, Yields-if, succeeded, attempt, ◌>>=◌,
}
use zerra.Sandbox.{
  Host, Sandbox, SandboxResult, SandboxConfig, write_text, copytree, mkdtemp, subprocess_run, touch,
  check_docker, detect_install_command, install_argv, ended, named_result, test_argv,
}
use zerra.Sandbox.Verify.{
  is_blank, resume, set_volume, current, apply_patch, install_with, install_deps, timed_out,
  run_tests, verify_steps, failed, clean_up, verify_in, verify_patch,
}

abbrev IsNoSuccess : SandboxResult → Type 0
IsNoSuccess r = r.success ≡ false

abbrev EndsIfAny : Option SandboxResult → Type 0
EndsIfAny none = Unit {0}
EndsIfAny (some r) = IsNoSuccess r

resume-Yields :
    (next : Action Sandbox SandboxResult) (early : Option SandboxResult)
    → EndsIfAny early
    → Yields IsNoSuccess next
    → Yields IsNoSuccess (resume next early)
resume-Yields next none h y = y
resume-Yields next (some r) h y = Yields-return {Q = IsNoSuccess} r h

module _ (host : Host) where
  ended-Yields :
      (code : ℤ) (out errors : String) (duration : ℕ) (error : String)
      → Yields IsNoSuccess (return {S = Sandbox} (ended host code out errors duration error))
  unfolding ended
  ended-Yields code out errors duration error =
      Yields-return {Q = IsNoSuccess} (ended host code out errors duration error) refl

  ended_if-Yields :
      (test : Bool) (code : ℤ) (out errors : String) (duration : ℕ) (error : String)
      → Yields EndsIfAny (
          return {S = Sandbox}
            (if test then none else some (ended host code out errors duration error)))
  unfolding ended
  ended_if-Yields true code out errors duration error = Yields-return {Q = EndsIfAny} none tt
  ended_if-Yields false code out errors duration error =
      Yields-return {Q = EndsIfAny} (some (ended host code out errors duration error)) refl

  apply_patch-Yields :
      (start : ℕ) (patch_diff : String) → Yields EndsIfAny (apply_patch host start patch_diff)
  unfolding apply_patch
  apply_patch-Yields start patch_diff =
      Yields-if {Q = EndsIfAny} (is_blank patch_diff) (Yields-return {Q = EndsIfAny} none tt) (
        Yields->>= {Q = EndsIfAny} (touch host (write_text patch_diff)) (λ written.
          Yields->>= {Q = EndsIfAny}
            (subprocess_run host ("git" ∷ "apply" ∷ "--whitespace=nowarn" ∷ host.patch_file ∷ []))
            (λ applied.
              Yields->>= {Q = EndsIfAny} current
                (λ s. ended_if-Yields (succeeded applied) _ _ _ _ _))))

  install_with-Yields :
      (config : SandboxConfig) (start : ℕ) (detected : Option (List String))
      → Yields EndsIfAny (install_with host config start detected)
  unfolding install_with
  install_with-Yields config start none =
      Yields->>= {Q = EndsIfAny} (set_volume none) (λ done. Yields-return {Q = EndsIfAny} none tt)
  install_with-Yields config start (some install_cmd) =
      Yields->>= {Q = EndsIfAny}
        (subprocess_run host
          (install_argv host config ("zerra-deps-" +++ host.uuid "volume") install_cmd))
        (λ dep_run.
          Yields->>= {Q = EndsIfAny} current (λ s. ended_if-Yields (succeeded dep_run) _ _ _ _ _))

  install_deps-Yields :
      (config : SandboxConfig) (start : ℕ) → Yields EndsIfAny (install_deps host config start)
  unfolding install_deps
  install_deps-Yields config start =
      Yields->>= {Q = EndsIfAny} (set_volume (some ("zerra-deps-" +++ host.uuid "volume")))
        (λ named. install_with-Yields config start (detect_install_command host))

  named_result-Yields :
      (success : Bool) (code : ℤ) (out errors name : String)
      → Yields IsNoSuccess (named_result host success code out errors name)
  unfolding named_result
  named_result-Yields success code out errors name = Yields-raise {Q = IsNoSuccess} _

  timed_out-Yields : (name : String) (e : Error) → Yields IsNoSuccess (timed_out host name e)
  unfolding timed_out
  timed_out-Yields name timeout_expired =
      Yields->>= {Q = IsNoSuccess} (subprocess_run host ("docker" ∷ "kill" ∷ name ∷ []))
        (λ killed. named_result-Yields false (negsuc 0) "" "" name)
  timed_out-Yields name e = Yields-raise {Q = IsNoSuccess} e

  test_run-Yields :
      (config : SandboxConfig) (name : String) (s : Sandbox)
      → Yields IsNoSuccess (
          attempt
            (subprocess_run host (test_argv host config name s.deps_volume) >>= λ result.
              named_result host
                (succeeded result)
                result.returncode
                (last_chars 10000 result.stdout)
                (last_chars 5000 result.stderr)
                name)
            (timed_out host name))
  test_run-Yields config name s =
      Yields-attempt {Q = IsNoSuccess}
        (Yields->>= {Q = IsNoSuccess}
          (subprocess_run host (test_argv host config name s.deps_volume))
          (λ result. named_result-Yields (succeeded result) result.returncode _ _ name))
        (timed_out-Yields name)

  run_tests-Yields : (config : SandboxConfig) → Yields IsNoSuccess (run_tests host config)
  unfolding run_tests
  run_tests-Yields config = Yields->>= {Q = IsNoSuccess} current (test_run-Yields config _)

  verify_steps-Yields :
      (config : SandboxConfig) (patch_diff : String) (start : ℕ)
      → Yields IsNoSuccess (verify_steps host config patch_diff start)
  unfolding verify_steps
  verify_steps-Yields config patch_diff start =
      Yields->>= {Q = IsNoSuccess} (touch host copytree) (λ copied.
        Yields-chain {R = EndsIfAny} {Q = IsNoSuccess} (apply_patch-Yields start patch_diff)
          (λ early ends. resume-Yields _ early ends (
            Yields-chain {R = EndsIfAny} {Q = IsNoSuccess} (install_deps-Yields config start)
              (λ later over. resume-Yields _ later over (run_tests-Yields config)))))

  failed-Yields : (start : ℕ) (e : Error) → Yields IsNoSuccess (failed host start e)
  unfolding failed
  failed-Yields start e =
      Yields->>= {Q = IsNoSuccess} current (λ s. ended-Yields (negsuc 0) "" "" _ (host.message e))

  verify_in-Yields :
      (config : SandboxConfig) (patch_diff : String) (start : ℕ)
      → Yields IsNoSuccess (verify_in host config patch_diff start)
  unfolding verify_in
  verify_in-Yields config patch_diff start = Yields-finally {Q = IsNoSuccess} (clean_up host) (
      Yields-attempt {Q = IsNoSuccess} (verify_steps-Yields config patch_diff start)
        (failed-Yields start))

  verify_patch-Yields :
      (config : SandboxConfig) (patch_diff : String)
      → Yields IsNoSuccess (verify_patch host config patch_diff)
  unfolding verify_patch
  verify_patch-Yields config patch_diff = Yields->>= {Q = IsNoSuccess} (set_volume none) (λ unset.
      Yields->>= {Q = IsNoSuccess} (check_docker host) (λ available.
        Yields-if {Q = IsNoSuccess} available
          (Yields->>= {Q = IsNoSuccess} current (λ s.
            Yields->>= {Q = IsNoSuccess} (touch host mkdtemp)
              (λ made. verify_in-Yields config patch_diff (host.clock s.log))))
          (ended-Yields (negsuc 0) "" "" 0 "Docker is not available on this host")))

  -- A verification never reports a success, also where the patch applies, the dependencies are
  -- installed and the tests pass: the result of a test run is built with a keyword that its class
  -- does not have, and the exception is caught.
  pub verify_patch-fails :
      (config : SandboxConfig) (patch_diff : String) (s : Sandbox) {r : SandboxResult}
      → (verify_patch host config patch_diff s).0 ≡ ok r
      → r.success ≡ false
  verify_patch-fails config patch_diff s {r} same =
      (verify_patch-Yields config patch_diff).yielded s r same
