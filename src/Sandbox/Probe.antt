-- ===== src/Sandbox/Probe.antt =====
-- agent/sandbox.py: _check_docker, which asks once, and the calls that need its answer.
use zerra.Prelude.{◌≡◌, refl, String, Bool, false, Option, none, some, ℕ}
use zerra.Prelude.Results.{Error, Result, ok, err, timeout_expired, file_not_found}
use zerra.Prelude.Effects.{Completed, negsuc, handle, continue}
use zerra.Sandbox.{
  Host, Sandbox, SandboxConfig, subprocess_run, check_docker, known_or_probed, probed, probe_failed,
  ended,
}
use zerra.Sandbox.Verify.{verify_patch, cleanup_stale_containers}

module _ (host : Host) where
  -- The states that a probe leaves, by what the command answered.
  probe_failed-known :
      (e : Error) (s : Sandbox) {available : Bool}
      → (probe_failed host e s).0 ≡ ok available
      → (probe_failed host e s).1.docker_available ≡ some available
  unfolding probe_failed
  probe_failed-known timeout_expired s same = cc
  probe_failed-known (file_not_found name) s same = cc
  probe_failed-known e s same = cc

  probe-known :
      (answer : Result Completed) (s : Sandbox) {available : Bool}
      → (handle (probe_failed host) (continue (probed host) (answer, s))).0 ≡ ok available
      → (handle (probe_failed host) (continue (probed host) (answer, s))).1.docker_available
        ≡ some available
  unfolding probed
  probe-known (err e) s same = probe_failed-known e s same
  probe-known (ok r) s same = cc

  known_or_probed-known :
      (known : Option Bool) (s : Sandbox) {available : Bool}
      → s.docker_available ≡ known
      → (known_or_probed host known s).0 ≡ ok available
      → (known_or_probed host known s).1.docker_available ≡ some available
  unfolding known_or_probed subprocess_run
  known_or_probed-known (some known) s same returns = cc
  known_or_probed-known none s same returns = probe-known _ _ returns

  check_docker-known :
      (s : Sandbox) {available : Bool}
      → (check_docker host s).0 ≡ ok available
      → (check_docker host s).1.docker_available ≡ some available
  unfolding check_docker
  check_docker-known s returns = known_or_probed-known s.docker_available s refl returns

  check_docker-once :
      (s : Sandbox) (available : Bool)
      → s.docker_available ≡ some available
      → check_docker host s ≡ (ok available, s)
  unfolding check_docker known_or_probed
  check_docker-once s available known = rw (known, known_or_probed)

  -- With Docker known to be missing.
  verify_patch-missing :
      (config : SandboxConfig) (patch_diff : String) (s : Sandbox)
      → s.docker_available ≡ some false
      → verify_patch host config patch_diff s ≡ (
        ok (ended host (negsuc 0) "" "" 0 "Docker is not available on this host"),
        record s { deps_volume = none },
      )
  unfolding verify_patch
  verify_patch-missing config patch_diff s known =
      rw (check_docker-once (record s { deps_volume = none }) false known) refl

  cleanup-missing :
      (max_age_minutes : ℕ) (s : Sandbox)
      → s.docker_available ≡ some false
      → cleanup_stale_containers host max_age_minutes s ≡ (ok 0, s)
  unfolding cleanup_stale_containers
  cleanup-missing max_age_minutes s known = rw (check_docker-once s false known) refl

  -- Once a check has found that Docker is missing, every later verification runs no command and
  -- touches no file, the check's own command included, and says so; a later cleanup removes
  -- nothing.
  pub check_docker-verify_patch :
      (config : SandboxConfig) (patch_diff : String) (max_age_minutes : ℕ) (s : Sandbox)
      → (check_docker host s).0 ≡ ok false
      → ((verify_patch host config patch_diff (check_docker host s).1).0
          ≡ ok (ended host (negsuc 0) "" "" 0 "Docker is not available on this host"))
        × ((verify_patch host config patch_diff (check_docker host s).1).1.log
            ≡ (check_docker host s).1.log)
        × (cleanup_stale_containers host max_age_minutes (check_docker host s).1
            ≡ (ok 0, (check_docker host s).1))
  check_docker-verify_patch config patch_diff max_age_minutes s missing =
      let known = check_docker-known s missing in
      let verified = verify_patch-missing config patch_diff (check_docker host s).1 known in
      (
        rw verified refl,
        rw verified refl,
        cleanup-missing max_age_minutes (check_docker host s).1 known,
      )
