-- ===== src/Sandbox/Options.antt =====
-- The arguments of `docker run` in agent/sandbox.py.
use zerra.Prelude.{
  ◌≡◌, refl, String, Bool, false, Option, none, some, List, [], ◌∷◌, ◌++◌, ◌⊎◌, inl, inr,
  if◌then◌else◌, str_eq, str_mem, ◌+++◌, show, ap, true, All,
}
use zerra.Prelude.Dict.{Dict, lookup}
use zerra.Sandbox.{
  Effect, run, Host, SandboxConfig, detect_install_command, install_argv, test_argv,
  install_options, env_args, volume_args,
}

-- The arguments of options that each take a value.
abbrev pub flags : List (String × String) → List String
flags [] = []
flags ((flag, value) ∷ rest) = flag ∷ value ∷ flags rest

-- The volume of the dependencies, once there is one.
abbrev pub IsVolume : Host → String → Type 0
IsVolume host volume = volume ≡ "zerra-deps-" +++ host.uuid "volume"

-- An option of a container that is in `network` and has the volume mounted at `site`: none but
-- these, and of directories of the host only the copy of the repository, read only.
abbrev pub IsOption : Host → String → String → String × String → Type 0
IsOption host network site (flag, value) =
    (str_mem flag
        ("--name" ∷ "--label" ∷ "--memory" ∷ "--cpu-quota" ∷ "--workdir" ∷ "--tmpfs" ∷ "-e" ∷ [])
      ≡ true)
    ⊎ (((flag ≡ "--network") × (value ≡ network))
        ⊎ ((flag ≡ "-v")
            × ((value ≡ host.patched +++ ":/workspace:ro")
                ⊎ ((volume : String) × IsVolume host volume × (value ≡ volume +++ site)))))

-- The command is the configured tests, in no network, or the detected command that installs the
-- dependencies.
abbrev pub IsPurpose : Host → SandboxConfig → String → String → List String → Type 0
IsPurpose host config network site cmd =
    ((network ≡ "none") × (site ≡ ":/usr/local/lib/python-site:ro") × (cmd ≡ config.test_command))
    ⊎ ((network ≡ "bridge")
        × (site ≡ ":/usr/local/lib/python-site")
        × (detect_install_command host ≡ some cmd))

-- Options as above, with the limits of the configuration, then the configured image, then the
-- command.
abbrev pub IsContainer : Host → SandboxConfig → List String → Type 0
IsContainer host config options =
    (network : String) × (site : String) × (pairs : List (String × String)) × (cmd : List String)
    × (options ≡ flags pairs ++ config.image ∷ cmd)
    × All (IsOption host network site) pairs
    × (lookup "--network" pairs ≡ some network)
    × (lookup "--memory" pairs ≡ some config.memory_limit)
    × (lookup "--cpu-quota" pairs ≡ some (show config.cpu_quota))
    × IsPurpose host config network site cmd

-- A command that starts no container.
abbrev pub is_harmless : List String → Bool
is_harmless (program ∷ verb ∷ rest) =
    if str_eq program "docker"
    then str_mem verb ("info" ∷ "kill" ∷ "volume" ∷ [])
    else str_eq program "git"
is_harmless _ = false

abbrev pub IsContained : Host → SandboxConfig → Effect → Type 0
IsContained host config (run argv) =
    (is_harmless argv ≡ true)
    ⊎ ((options : List String) × (argv ≡ "docker" ∷ "run" ∷ "--rm" ∷ options)
        × IsContainer host config options)
IsContained host config _ = Unit {0}

module _ (host : Host) (config : SandboxConfig) where
  env_pairs : Dict String → List (String × String)
  env_pairs [] = []
  env_pairs ((k, v) ∷ rest) = ("-e", k +++ "=" +++ v) ∷ env_pairs rest

  volume_pairs : Option String → List (String × String)
  volume_pairs none = []
  volume_pairs (some volume) = ("-v", volume +++ ":/usr/local/lib/python-site:ro") ∷ []

  flags-env_pairs :
      (env : Dict String) (rest : List String)
      → env_args host config env ++ rest ≡ flags (env_pairs env) ++ rest
  unfolding env_pairs env_args
  flags-env_pairs [] rest = refl
  flags-env_pairs ((k, v) ∷ env) rest =
      ap (λ (args : List String). "-e" ∷ (k +++ "=" +++ v) ∷ args) (flags-env_pairs env rest)

  test_flags :
      (volume : Option String) (rest : List String)
      → volume_args host config volume ++ (env_args host config config.extra_env ++ rest)
        ≡ flags (volume_pairs volume ++ env_pairs config.extra_env) ++ rest
  unfolding volume_args volume_pairs
  test_flags none rest = flags-env_pairs config.extra_env rest
  test_flags (some volume) rest =
      ap (λ (args : List String). "-v" ∷ (volume +++ ":/usr/local/lib/python-site:ro") ∷ args)
        (flags-env_pairs config.extra_env rest)

  AreOptions : String → String → List (String × String) → Type 0
  AreOptions network site pairs = All (IsOption host network site) pairs

  env_pairs-AreOptions :
      (network site : String) (env : Dict String) → AreOptions network site (env_pairs env)
  unfolding AreOptions env_pairs
  env_pairs-AreOptions network site [] = tt
  env_pairs-AreOptions network site ((k, v) ∷ env) =
      (inl refl, env_pairs-AreOptions network site env)

  -- No volume, or the one of the dependencies.
  abbrev pub IsKnown : Option String → Type 0
  IsKnown none = Unit
  IsKnown (some volume) = IsVolume host volume

  test_pairs-AreOptions :
      (volume : Option String)
      → IsKnown volume
      → AreOptions "none" ":/usr/local/lib/python-site:ro"
          (volume_pairs volume ++ env_pairs config.extra_env)
  unfolding AreOptions volume_pairs
  test_pairs-AreOptions none known = env_pairs-AreOptions _ _ config.extra_env
  test_pairs-AreOptions (some volume) known =
      (inr (inr (refl, inr (volume, known, refl))), env_pairs-AreOptions _ _ config.extra_env)

  pub test_argv-IsContained :
      (name : String) (volume : Option String)
      → IsKnown volume
      → IsContained host config (run (test_argv host config name volume))
  unfolding test_argv AreOptions
  test_argv-IsContained name volume known = inr (
    _,
    refl,
    (
      "none",
      ":/usr/local/lib/python-site:ro",
      ("--name", name)
          ∷ ("--label", "zerra.sandbox=true")
          ∷ ("--memory", config.memory_limit)
          ∷ ("--cpu-quota", show config.cpu_quota)
          ∷ ("--network", "none")
          ∷ ("--workdir", "/workspace")
          ∷ ("-v", host.patched +++ ":/workspace:ro")
          ∷ ("--tmpfs", "/workspace/.pytest_cache:rw,size=64m")
          ∷ ("--tmpfs", "/tmp:rw,size=128m")
          ∷ (volume_pairs volume ++ env_pairs config.extra_env),
      config.test_command,
      rw (test_flags volume (config.image ∷ config.test_command)) refl,
      (
        inl refl,
        (
          inl refl,
          (
            inl refl,
            (
              inl refl,
              (
                inr (inl (refl, refl)),
                (
                  inl refl,
                  (
                    inr (inr (refl, inl refl)),
                    (inl refl, (inl refl, test_pairs-AreOptions volume known)),
                  ),
                ),
              ),
            ),
          ),
        ),
      ),
      refl,
      refl,
      refl,
      inl (refl, refl, refl),
    ),
  )

  pub install_argv-IsContained :
      (install_cmd : List String)
      → detect_install_command host ≡ some install_cmd
      → IsContained host config
          (run (install_argv host config ("zerra-deps-" +++ host.uuid "volume") install_cmd))
  unfolding install_argv install_options
  install_argv-IsContained install_cmd same = inr (
    _,
    refl,
    (
      "bridge",
      ":/usr/local/lib/python-site",
      ("--name", "zerra-install-" +++ host.uuid "install")
          ∷ ("--label", "zerra.sandbox=true")
          ∷ ("--memory", config.memory_limit)
          ∷ ("--cpu-quota", show config.cpu_quota)
          ∷ ("--network", "bridge")
          ∷ ("--workdir", "/workspace")
          ∷ ("-v", host.patched +++ ":/workspace:ro")
          ∷ ("-v", "zerra-deps-" +++ host.uuid "volume" +++ ":/usr/local/lib/python-site")
          ∷ [],
      install_cmd,
      refl,
      (
        inl refl,
        (
          inl refl,
          (
            inl refl,
            (
              inl refl,
              (
                inr (inl (refl, refl)),
                (
                  inl refl,
                  (inr (inr (refl, inl refl)), (inr (inr (refl, inr (_, refl, refl))), tt)),
                ),
              ),
            ),
          ),
        ),
      ),
      refl,
      refl,
      refl,
      inr (refl, refl, same),
    ),
  )
