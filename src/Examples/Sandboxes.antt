-- ===== src/Examples/Sandboxes.antt =====
-- The sandbox on a concrete host.
use zerra.Prelude.{◌≡◌, refl, false, none, some, [], All, length, str_eq}
use zerra.Prelude.Results.{err, ok, file_not_found}
use zerra.Prelude.Effects.{pos, negsuc}
use zerra.Sandbox.{
  Host, Sandbox, SandboxResult, default_config, check_docker, ended, subprocess_run, touch,
  named_result, test_argv, install_argv, detect_install_command,
}
use zerra.Sandbox.Verify.{
  verify_patch, cleanup_stale_containers, clean_up, verify_in, verify_steps, failed, apply_patch,
  install_deps, install_with, run_tests,
}
use zerra.Sandbox.Options.{IsContained}
use zerra.Sandbox.Containers.{verify_patch-IsContained}
use zerra.Sandbox.Outcomes.{verify_patch-fails}
use zerra.Sandbox.Probe.{check_docker-verify_patch}

-- Every command succeeds, and the repository has requirements.
abbrev working : Host
working = record {
  runs = λ log argv. ok (record { returncode = pos 0; stdout = "1 passed"; stderr = "" });
  touches = λ log e. ok tt;
  clock = λ log. length log;
  uuid = λ purpose. "0123abcd";
  message = λ e. "failed";
  patched = "/tmp/zerra-sandbox-1/repo";
  patch_file = "/tmp/zerra-sandbox-1/fix.patch";
  exists = λ file. str_eq file "requirements.txt";
}

-- No `docker` on the machine.
abbrev bare : Host
bare = record working { runs = λ log argv. err (file_not_found "docker") }

abbrev idle : Sandbox
idle = record { docker_available = none; deps_volume = none; log = [] }

verify_patch-IsContained_example :
    All (IsContained working default_config) (verify_patch working default_config "diff" idle).1.log
verify_patch-IsContained_example = verify_patch-IsContained working default_config "diff" none

abbrev outcome : SandboxResult
outcome = record {
  success = false;
  exit_code = negsuc 0;
  stdout = "";
  stderr = "";
  duration_seconds = 6;
  container_id = none;
  error = some "failed";
}

-- The patch applies, the dependencies are installed and the tests pass.
verified_patch : (verify_patch working default_config "diff" idle).0 ≡ ok outcome
unfolding verify_patch check_docker subprocess_run touch named_result ended test_argv install_argv
    detect_install_command clean_up verify_in verify_steps failed apply_patch install_deps
    install_with run_tests
verified_patch = refl

verify_patch-fails_example : outcome.success ≡ false
verify_patch-fails_example = verify_patch-fails working default_config "diff" idle verified_patch

no_docker : (check_docker bare idle).0 ≡ ok false
unfolding check_docker subprocess_run
no_docker = refl

check_docker-verify_patch_example :
    ((verify_patch bare default_config "diff" (check_docker bare idle).1).0
      ≡ ok (ended bare (negsuc 0) "" "" 0 "Docker is not available on this host"))
    × ((verify_patch bare default_config "diff" (check_docker bare idle).1).1.log
        ≡ (check_docker bare idle).1.log)
    × (cleanup_stale_containers bare 30 (check_docker bare idle).1
        ≡ (ok 0, (check_docker bare idle).1))
check_docker-verify_patch_example =
    check_docker-verify_patch bare default_config "diff" 30 idle no_docker
