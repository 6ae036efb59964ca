-- ===== src/Sandbox.antt =====
-- The Docker sandbox that a patch is verified in, agent/sandbox.py. What a command, the file system
-- and the clock answer is a parameter, given what was done before; the state keeps what was done.
pub mod Verify
pub mod Options
pub mod Containers
pub mod Outcomes
pub mod Probe
use zerra.Prelude.{
  ℕ, ◌*◌, String, Bool, true, false, not, Option, none, some, List, [], ◌∷◌, ◌++◌, if◌then◌else◌,
  ◌+++◌, all, codes, show, last_chars, split_at, is_space, is_some, ◌==◌, is_empty, filter, ◌+◌,
}
use zerra.Prelude.Dict.{Dict}
use zerra.Prelude.Results.{Error, Result, err, ok, type_error, timeout_expired, file_not_found}
use zerra.Prelude.Effects.{
  ℤ, pos, negsuc, Completed, succeeded, Action, return, raise, ◌>>=◌, ◌>>◌, attempt, finally,
}

pub record SandboxResult : Type 0 where
  pub success : Bool
  pub exit_code : ℤ
  pub stdout : String
  pub stderr : String
  pub duration_seconds : ℕ
  pub container_id : Option String
  pub error : Option String

pub record SandboxConfig : Type 0 where
  pub image : String
  pub test_command : List String
  pub timeout_seconds : ℕ
  pub memory_limit : String
  pub cpu_quota : ℕ
  pub network : String
  pub read_only_root : Bool
  pub extra_env : Dict String

abbrev pub default_config : SandboxConfig
default_config = record {
  image = "python:3.11-slim";
  test_command = "python" ∷ "-m" ∷ "pytest" ∷ "--tb=short" ∷ "-q" ∷ [];
  timeout_seconds = 120;
  memory_limit = "512m";
  cpu_quota = 100000;
  network = "none";
  read_only_root = false;
  extra_env = [];
}

-- `subprocess.run` with its argument list, and the calls that touch the temporary directory.
pub data Effect : Type 0 where
  run : List String → Effect
  mkdtemp copytree rmtree : Effect
  write_text : String → Effect

pub record Host : Type 0 where
  pub runs : List Effect → List String → Result Completed
  pub touches : List Effect → Effect → Result (Unit {0})
  pub clock : List Effect → ℕ
  -- `uuid.uuid4().hex[:8]`, a text for each use.
  pub uuid : String → String
  -- `str(exc)`.
  pub message : Error → String
  -- The resolved path of the repository's copy, and its files.
  pub patched : String
  pub patch_file : String
  pub exists : String → Bool

-- `_DOCKER_AVAILABLE`, the local variable `deps_volume`, and what was done, the latest first.
pub record Sandbox : Type 0 where
  pub docker_available : Option Bool
  pub deps_volume : Option String
  pub log : List Effect

module _ (host : Host) where
  unfoldable pub subprocess_run : List String → Action Sandbox Completed
  subprocess_run argv s = (host.runs s.log argv, record s { log = run argv ∷ s.log })

  unfoldable pub touch : Effect → Action Sandbox (Unit {0})
  touch e s = (host.touches s.log e, record s { log = e ∷ s.log })

  -- The handlers of `_check_docker`.
  probe_failed : Error → Action Sandbox Bool
  probe_failed timeout_expired s = (ok false, record s { docker_available = some false })
  probe_failed (file_not_found name) s = (ok false, record s { docker_available = some false })
  probe_failed e s = (err e, s)

  probed : Completed → Action Sandbox Bool
  probed r s = (ok (succeeded r), record s { docker_available = some (succeeded r) })

  -- `_check_docker`, given what is known.
  known_or_probed : Option Bool → Action Sandbox Bool
  unfolding subprocess_run probe_failed probed
  known_or_probed (some known) = return known
  known_or_probed none = attempt (subprocess_run ("docker" ∷ "info" ∷ []) >>= probed) probe_failed

  unfoldable pub check_docker : Action Sandbox Bool
  unfolding known_or_probed
  check_docker s = known_or_probed s.docker_available s

  unfoldable pub detect_install_command : Option (List String)
  detect_install_command =
      if host.exists "requirements.txt"
      then some ("pip" ∷ "install" ∷ "--quiet" ∷ "-r" ∷ "requirements.txt" ∷ [])
      else if host.exists "pyproject.toml"
      then some ("pip" ∷ "install" ∷ "--quiet" ∷ "-e" ∷ "." ∷ [])
      else if host.exists "setup.py"
      then some ("pip" ∷ "install" ∷ "--quiet" ∷ "-e" ∷ "." ∷ [])
      else if host.exists "package.json"
      then some ("npm" ∷ "ci" ∷ "--prefer-offline" ∷ [])
      else none

  -- A result of `verify_patch` that names no container.
  unfoldable pub ended : ℤ → String → String → ℕ → String → SandboxResult
  ended code out errors duration error = record {
    success = false;
    exit_code = code;
    stdout = out;
    stderr = errors;
    duration_seconds = duration;
    container_id = none;
    error = some error;
  }

  -- `SandboxResult(..., container_name=...)`: the class has no such field.
  unfoldable pub named_result : Bool → ℤ → String → String → String → Action Sandbox SandboxResult
  named_result success code out errors container_name =
      raise
        (type_error "SandboxResult.__init__() got an unexpected keyword argument 'container_name'")

  module _ (config : SandboxConfig) where
    -- The options of the container that installs, after `--rm`.
    install_options : String → List String
    install_options deps_volume =
        "--name"
        ∷ ("zerra-install-" +++ host.uuid "install")
        ∷ "--label"
        ∷ "zerra.sandbox=true"
        ∷ "--memory"
        ∷ config.memory_limit
        ∷ "--cpu-quota"
        ∷ show config.cpu_quota
        ∷ "--network"
        ∷ "bridge"
        ∷ "--workdir"
        ∷ "/workspace"
        ∷ "-v"
        ∷ (host.patched +++ ":/workspace:ro")
        ∷ "-v"
        ∷ (deps_volume +++ ":/usr/local/lib/python-site")
        ∷ []

    unfoldable pub install_argv : String → List String → List String
    unfolding install_options
    install_argv deps_volume install_cmd =
        "docker" ∷ "run" ∷ "--rm" ∷ (install_options deps_volume ++ config.image ∷ install_cmd)

    env_args : Dict String → List String
    env_args [] = []
    env_args ((k, v) ∷ rest) = "-e" ∷ (k +++ "=" +++ v) ∷ env_args rest

    volume_args : Option String → List String
    volume_args none = []
    volume_args (some deps_volume) = "-v" ∷ (deps_volume +++ ":/usr/local/lib/python-site:ro") ∷ []

    unfoldable pub test_argv : String → Option String → List String
    unfolding env_args volume_args
    test_argv container_name deps_volume =
        "docker"
        ∷ "run"
        ∷ "--rm"
        ∷ "--name"
        ∷ container_name
        ∷ "--label"
        ∷ "zerra.sandbox=true"
        ∷ "--memory"
        ∷ config.memory_limit
        ∷ "--cpu-quota"
        ∷ show config.cpu_quota
        ∷ "--network"
        ∷ "none"
        ∷ "--workdir"
        ∷ "/workspace"
        ∷ "-v"
        ∷ (host.patched +++ ":/workspace:ro")
        ∷ "--tmpfs"
        ∷ "/workspace/.pytest_cache:rw,size=64m"
        ∷ "--tmpfs"
        ∷ "/tmp:rw,size=128m"
        ∷ (volume_args deps_volume
            ++ (env_args config.extra_env ++ config.image ∷ config.test_command))
