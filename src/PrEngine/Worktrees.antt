-- ===== src/PrEngine/Worktrees.antt =====
-- PREngine of agent/pr_engine.py: the directories that a run works in.
use zerra.Prelude.{
  ◌≡◌, refl, String, Bool, true, false, ◌||◌, ◌&&◌, Option, none, some, List, [], ◌∷◌, All, str_eq,
  str_mem, not, split_at, ◌==◌, arith, starts_with, ◌+++◌, ◌⊎◌, inl, inr, if-false, strip,
}
use zerra.Prelude.Results.{Error, Result, ok, timeout_expired, file_not_found}
use zerra.Prelude.Effects.{
  succeeded, Keeps, Keeps-return, Keeps-raise, Keeps->>=, Keeps-chain, Keeps-attempt, Keeps-if,
  Yields, Yields-return, Yields->>=, Yields-chain, Yields-if,
}
use zerra.ScanModels.{FixSuggestion}
use zerra.PrEngine.{
  Event, command, write, mkdtemp, rmdir, rmtree, Log, Host, path_join, perform, run, raise_if,
  write_text, reading, replaced, patch_target, apply_patch_locally,
}
use zerra.PrEngine.Commands.{
  make_command, detect_among, detect_test_command, tests_failed, run_command, run_tests, git_commit,
  git_push, remove_directory, create_worktree, remove_worktree,
}
use zerra.PrEngine.Process.{PrEngine}

-- A directory that the system handed out as a temporary one.
abbrev pub IsTemporary : Host → String → Type 0
IsTemporary host path = (log : Log) × (host.temporary log ≡ ok path)

abbrev pub is_worktree_command : List String → Bool
is_worktree_command (git ∷ verb ∷ rest) = str_eq git "git" && str_eq verb "worktree"
is_worktree_command _ = false

-- A relative path that does not lead out of its directory: none of its parts is "..".
abbrev pub is_inside : String → Bool
is_inside file = not (starts_with file "/") && not (str_mem ".." (split_at (λ c. c == b'/') file))

-- A command runs in a temporary directory, or is one of `git worktree` in the repository; a file is
-- written inside a temporary directory, and nothing else is removed.
abbrev pub IsOutside : Host → PrEngine → Event → Type 0
IsOutside host engine (command argv cwd) =
    IsTemporary host cwd ⊎ ((cwd ≡ engine.repo_path) × (is_worktree_command argv ≡ true))
IsOutside host engine (write path text) =
    (root : String) × (file : String) × IsTemporary host root
    × (path ≡ root +++ "/" +++ file)
    × (is_inside file ≡ true)
IsOutside host engine (rmdir path) = IsTemporary host path
IsOutside host engine (rmtree path) = IsTemporary host path
IsOutside host engine _ = Unit {0}

-- What `_create_worktree` returns.
abbrev pub IsWorktree : Host → Option String × String → Type 0
IsWorktree host (none, error) = Unit {0}
IsWorktree host (some path, error) = IsTemporary host path

module _ (host : Host) (engine : PrEngine) where
  unfoldable pub AllOutside : Log → Type 0
  AllOutside log = All (IsOutside host engine) log

  pub perform-Keeps :
      {V : Type 0} (answer : Log → Result V) (e : Event)
      → IsOutside host engine e
      → Keeps AllOutside (perform host answer e)
  unfolding perform AllOutside
  perform-Keeps answer e outside = record { kept = λ s h. (outside, h) }

  run-Keeps :
      (argv : List String) (cwd : String)
      → IsOutside host engine (command argv cwd)
      → Keeps AllOutside (run host argv cwd)
  unfolding run perform AllOutside
  run-Keeps argv cwd outside = record { kept = λ s h. (outside, h) }

  reading-Keeps : (path : String) → Keeps AllOutside (reading host path)
  unfolding reading
  reading-Keeps path = record { kept = λ s h. h }

  tests_failed-Keeps : (e : Error) → Keeps AllOutside (tests_failed host e)
  unfolding tests_failed
  tests_failed-Keeps timeout_expired = Keeps-return _
  tests_failed-Keeps (file_not_found name) = Keeps-return _
  tests_failed-Keeps e = Keeps-raise e

  module _ (wt : String) (temporary : IsTemporary host wt) where
    in_wt-Keeps : (argv : List String) → Keeps AllOutside (run host argv wt)
    in_wt-Keeps argv = run-Keeps argv wt (inl temporary)

    patch-IsOutside :
        (fix : FixSuggestion) (text : String)
        → is_inside fix.file_path ≡ true
        → IsOutside host engine (write (path_join wt fix.file_path) text)
    patch-IsOutside fix text relative = (
      wt,
      fix.file_path,
      temporary,
      if-false (starts_with fix.file_path "/") _ _ (ground arith),
      relative,
    )

    write_text-Keeps :
        (fix : FixSuggestion) (text : String)
        → is_inside fix.file_path ≡ true
        → Keeps AllOutside (write_text host (path_join wt fix.file_path) text)
    unfolding write_text
    write_text-Keeps fix text relative =
        perform-Keeps (λ (log : Log). raise_if host (host.write_fails log))
          (write (path_join wt fix.file_path) text) (patch-IsOutside fix text relative)

    replaced-Keeps :
        (fix : FixSuggestion) (content : String)
        → is_inside fix.file_path ≡ true
        → Keeps AllOutside (replaced host (path_join wt fix.file_path) fix content)
    unfolding replaced
    replaced-Keeps fix content relative =
        let kept : (text : String)
            → Keeps AllOutside (write_text host (path_join wt fix.file_path) text) =
          λ text. write_text-Keeps fix text relative in
        search (Keeps-if, Keeps-return, Keeps->>=, kept)

    pub apply_patch_locally-Keeps :
        (fix : FixSuggestion)
        → is_inside fix.file_path ≡ true
        → Keeps AllOutside (apply_patch_locally host wt fix)
    unfolding apply_patch_locally patch_target
    apply_patch_locally-Keeps fix relative = record {
      kept = λ log.
          (Keeps-if {P = AllOutside} (host.exists log (path_join wt fix.file_path))
              (Keeps-attempt
                (Keeps->>= (reading-Keeps _) (λ content. replaced-Keeps fix content relative))
                (λ e. Keeps-return _))
              (Keeps-return _)).kept
            log;
    }

    make_command-Keeps : Keeps AllOutside (make_command host wt)
    unfolding make_command
    make_command-Keeps = search (Keeps-return, Keeps->>=, in_wt-Keeps)

    detect_among-Keeps :
        (exists : String → Bool) (has_script : Result Bool)
        → Keeps AllOutside (detect_among host exists has_script wt)
    unfolding detect_among
    detect_among-Keeps exists has_script = Keeps-if (exists "package.json") (search Keeps-return) (
        Keeps-if (exists "pytest.ini" || (exists "pyproject.toml" || exists "setup.py"))
          (search Keeps-return)
          (Keeps-if (exists "requirements.txt") (search Keeps-return) (
            Keeps-if (exists "go.mod") (search Keeps-return)
              (search (Keeps-if, Keeps-return, make_command-Keeps)))))

    run_command-Keeps : (cmd : Option (List String)) → Keeps AllOutside (run_command host wt cmd)
    unfolding run_command
    run_command-Keeps none = Keeps-return _
    run_command-Keeps (some cmd) =
        Keeps-attempt (Keeps->>= (in_wt-Keeps cmd) (λ result. Keeps-return _)) tests_failed-Keeps

    pub run_tests-Keeps : Keeps AllOutside (run_tests host wt)
    unfolding run_tests detect_test_command
    run_tests-Keeps =
        Keeps->>=
          (record {
            kept = λ log.
                (detect_among-Keeps (λ (file : String). host.exists log (path_join wt file))
                    (host.has_test_script log (path_join wt "package.json"))).kept
                  log;
          })
          run_command-Keeps

    pub git_commit-Keeps :
        (file message : String) → Keeps AllOutside (git_commit host wt file message)
    unfolding git_commit
    git_commit-Keeps file message = search (Keeps-if, Keeps-return, Keeps->>=, in_wt-Keeps)

    pub git_push-Keeps :
        (branch url token : String) → Keeps AllOutside (git_push host wt branch url token)
    unfolding git_push
    git_push-Keeps branch url token = search (Keeps-return, Keeps->>=, in_wt-Keeps)

  mkdtemp-Yields : Yields (IsTemporary host) (perform host host.temporary mkdtemp)
  unfolding perform
  mkdtemp-Yields = record { yielded = λ log wt same. (log, same) }

  remove_directory-Keeps :
      (wt : String) → IsTemporary host wt → Keeps AllOutside (remove_directory host wt)
  unfolding remove_directory
  remove_directory-Keeps wt temporary = perform-Keeps _ (rmdir wt) temporary

  pub create_worktree-Yields :
      (branch : String) → Yields (IsWorktree host) (create_worktree host engine.repo_path branch)
  unfolding create_worktree
  create_worktree-Yields branch =
      Yields-chain {R = IsTemporary host} {Q = IsWorktree host} mkdtemp-Yields (λ wt temporary.
        Yields->>= {Q = IsWorktree host}
          (run host ("git" ∷ "worktree" ∷ "add" ∷ "-b" ∷ branch ∷ wt ∷ []) engine.repo_path)
          (λ r.
            Yields-if {Q = IsWorktree host} (succeeded r)
              (Yields-return {Q = IsWorktree host} (some wt, "") temporary)
              (Yields->>= {Q = IsWorktree host} (remove_directory host wt)
                (λ gone. Yields-return {Q = IsWorktree host} (none, strip r.stderr) tt))))

  pub create_worktree-Keeps :
      (branch : String) → Keeps AllOutside (create_worktree host engine.repo_path branch)
  unfolding create_worktree
  create_worktree-Keeps branch =
      Keeps-chain {R = IsTemporary host} (perform-Keeps host.temporary mkdtemp tt) (mkdtemp-Yields)
        (λ wt temporary. Keeps->>= (run-Keeps _ engine.repo_path (inr (refl, refl))) (λ r.
          Keeps-if (succeeded r) (Keeps-return (some wt, ""))
            (Keeps->>= (remove_directory-Keeps wt temporary) (λ gone. Keeps-return _))))

  pub remove_worktree-Keeps :
      (wt : String)
      → IsTemporary host wt
      → Keeps AllOutside (remove_worktree host engine.repo_path wt)
  unfolding remove_worktree AllOutside
  remove_worktree-Keeps wt temporary =
      Keeps->>= (run-Keeps _ engine.repo_path (inr (refl, refl))) (λ removed.
        Keeps->>= (run-Keeps _ engine.repo_path (inr (refl, refl)))
          (λ pruned. record { kept = λ s h. (temporary, h) }))
