-- ===== src/Sandbox/Containers.antt =====
-- agent/sandbox.py: the containers that a verification starts, and the results it comes to.
use zerra.Prelude.{◌≡◌, refl, String, Bool, Option, none, some, List, [], ◌∷◌, inl, All, ℕ}
use zerra.Prelude.Results.{Error, timeout_expired, file_not_found}
use zerra.Prelude.Effects.{
  negsuc, Action, Keeps, Keeps-return, Keeps-raise, Keeps->>=, Keeps-attempt, Keeps-finally,
  Keeps-if, Completed,
}
use zerra.Sandbox.{
  Effect, run, mkdtemp, copytree, rmtree, write_text, Host, Sandbox, SandboxResult, SandboxConfig,
  subprocess_run, touch, check_docker, detect_install_command, ended, named_result, probe_failed,
  probed, known_or_probed,
}
use zerra.Sandbox.Verify.{
  resume, set_volume, current, apply_patch, install_with, install_deps, timed_out, run_tests,
  verify_steps, failed, remove_volume, clean_up, verify_in, verify_patch,
}
use zerra.Sandbox.Options.{IsContained, IsKnown, test_argv-IsContained, install_argv-IsContained}

module _ (host : Host) (config : SandboxConfig) where
  AllContained : Sandbox → Type 0
  AllContained s = All (IsContained host config) s.log × IsKnown host config s.deps_volume

  subprocess_run-Keeps :
      (argv : List String)
      → IsContained host config (run argv)
      → Keeps AllContained (subprocess_run host argv)
  unfolding subprocess_run AllContained
  subprocess_run-Keeps argv contained = record { kept = λ s h. ((contained, h.0), h.1) }

  touch-Keeps : (e : Effect) → IsContained host config e → Keeps AllContained (touch host e)
  unfolding touch AllContained
  touch-Keeps e contained = record { kept = λ s h. ((contained, h.0), h.1) }

  set_volume-Keeps :
      (name : Option String) → IsKnown host config name → Keeps AllContained (set_volume name)
  unfolding AllContained
  set_volume-Keeps name known = record { kept = λ s h. (h.0, known) }

  current-Keeps : Keeps AllContained current
  current-Keeps = record { kept = λ s h. h }

  probed-Keeps : (r : Completed) → Keeps AllContained (probed host r)
  unfolding probed AllContained
  probed-Keeps r = record { kept = λ s h. h }

  probe_failed-Keeps : (e : Error) → Keeps AllContained (probe_failed host e)
  unfolding probe_failed AllContained
  probe_failed-Keeps timeout_expired = record { kept = λ s h. h }
  probe_failed-Keeps (file_not_found name) = record { kept = λ s h. h }
  probe_failed-Keeps e = record { kept = λ s h. h }

  known_or_probed-Keeps : (known : Option Bool) → Keeps AllContained (known_or_probed host known)
  unfolding known_or_probed
  known_or_probed-Keeps (some known) = Keeps-return known
  known_or_probed-Keeps none =
      Keeps-attempt
        (Keeps->>= (subprocess_run-Keeps ("docker" ∷ "info" ∷ []) (inl refl)) probed-Keeps)
        probe_failed-Keeps

  check_docker-Keeps : Keeps AllContained (check_docker host)
  unfolding check_docker
  check_docker-Keeps = record { kept = λ s h. (known_or_probed-Keeps s.docker_available).kept s h }

  resume-Keeps :
      (next : Action Sandbox SandboxResult) (early : Option SandboxResult)
      → Keeps AllContained next
      → Keeps AllContained (resume next early)
  resume-Keeps next none k = k
  resume-Keeps next (some result) k = Keeps-return result

  apply_patch-Keeps :
      (start : ℕ) (patch_diff : String) → Keeps AllContained (apply_patch host start patch_diff)
  unfolding apply_patch
  apply_patch-Keeps start patch_diff = Keeps-if _ (Keeps-return none) (
      Keeps->>= (touch-Keeps (write_text patch_diff) tt) (λ done.
        Keeps->>=
          (subprocess_run-Keeps ("git" ∷ "apply" ∷ "--whitespace=nowarn" ∷ host.patch_file ∷ [])
            (inl refl))
          (λ applied. Keeps->>= current-Keeps (λ s. Keeps-return _))))

  install_with-Keeps :
      (start : ℕ) (detected : Option (List String))
      → detect_install_command host ≡ detected
      → Keeps AllContained (install_with host config start detected)
  unfolding install_with
  install_with-Keeps start none same =
      Keeps->>= (set_volume-Keeps none tt) (λ done. Keeps-return none)
  install_with-Keeps start (some install_cmd) same =
      Keeps->>= (subprocess_run-Keeps _ (install_argv-IsContained host config install_cmd same))
        (λ dep_run. Keeps->>= current-Keeps (λ s. Keeps-return _))

  install_deps-Keeps : (start : ℕ) → Keeps AllContained (install_deps host config start)
  unfolding install_deps
  install_deps-Keeps start =
      Keeps->>= (set_volume-Keeps _ refl) (λ done. install_with-Keeps start _ refl)

  timed_out-Keeps : (name : String) (e : Error) → Keeps AllContained (timed_out host name e)
  unfolding timed_out named_result
  timed_out-Keeps name timeout_expired =
      Keeps->>= (subprocess_run-Keeps ("docker" ∷ "kill" ∷ name ∷ []) (inl refl))
        (λ killed. Keeps-raise _)
  timed_out-Keeps name e = Keeps-raise e

  run_tests-Keeps : Keeps AllContained (run_tests host config)
  unfolding run_tests named_result AllContained
  run_tests-Keeps = record {
    kept = λ s h.
        (Keeps-attempt {P = AllContained}
            (Keeps->>=
              (subprocess_run-Keeps _ (test_argv-IsContained host config _ s.deps_volume h.1))
              (λ result. Keeps-raise _))
            (timed_out-Keeps _)).kept
          s h;
  }

  verify_steps-Keeps :
      (patch_diff : String) (start : ℕ)
      → Keeps AllContained (verify_steps host config patch_diff start)
  unfolding verify_steps
  verify_steps-Keeps patch_diff start = Keeps->>= (touch-Keeps copytree tt) (λ copied.
      Keeps->>= (apply_patch-Keeps start patch_diff) (λ early.
        resume-Keeps _ early
          (Keeps->>= (install_deps-Keeps start) (λ later. resume-Keeps _ later run_tests-Keeps))))

  failed-Keeps : (start : ℕ) (e : Error) → Keeps AllContained (failed host start e)
  unfolding failed
  failed-Keeps start e = Keeps->>= current-Keeps (λ s. Keeps-return _)

  remove_volume-Keeps : (volume : Option String) → Keeps AllContained (remove_volume host volume)
  unfolding remove_volume
  remove_volume-Keeps none = Keeps-return tt
  remove_volume-Keeps (some volume) =
      Keeps->>= (subprocess_run-Keeps ("docker" ∷ "volume" ∷ "rm" ∷ "-f" ∷ volume ∷ []) (inl refl))
        (λ removed. Keeps-return tt)

  clean_up-Keeps : Keeps AllContained (clean_up host)
  unfolding clean_up
  clean_up-Keeps =
      Keeps->>= (Keeps-attempt (touch-Keeps rmtree tt) (λ e. Keeps-return tt))
        (λ gone. Keeps->>= current-Keeps (λ s. remove_volume-Keeps s.deps_volume))

  verify_in-Keeps :
      (patch_diff : String) (start : ℕ)
      → Keeps AllContained (verify_in host config patch_diff start)
  unfolding verify_in
  verify_in-Keeps patch_diff start =
      Keeps-finally (Keeps-attempt (verify_steps-Keeps patch_diff start) (failed-Keeps start))
        clean_up-Keeps

  verify_patch-Keeps :
      (patch_diff : String) → Keeps AllContained (verify_patch host config patch_diff)
  unfolding verify_patch
  verify_patch-Keeps patch_diff = Keeps->>= (set_volume-Keeps none tt) (λ unset.
      Keeps->>= check_docker-Keeps (λ available.
        Keeps-if available
          (Keeps->>= current-Keeps (λ s.
            Keeps->>= (touch-Keeps mkdtemp tt)
              (λ made. verify_in-Keeps patch_diff (host.clock s.log))))
          (Keeps-return (ended host (negsuc 0) "" "" 0 "Docker is not available on this host"))))

  -- Whatever the commands answer, and whatever patch is verified: the commands that a verification
  -- starts are git, docker info, kill and volume, and containers that are removed at their end, of
  -- the configured image and within its limits of memory and processor time, which mount nothing of
  -- the host but the copy of the repository, read only, and the volume of the dependencies. Such a
  -- container runs the configured tests without a network, or the detected command that installs
  -- the dependencies.
  pub verify_patch-IsContained :
      (patch_diff : String) (known : Option Bool)
      → All
          (IsContained host config)
          (verify_patch host config patch_diff
            (record { docker_available = known; deps_volume = none; log = [] })).1.log
  unfolding AllContained
  verify_patch-IsContained patch_diff known = ((verify_patch-Keeps patch_diff).kept _ (tt, tt)).0
