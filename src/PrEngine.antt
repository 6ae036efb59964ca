-- ===== src/PrEngine.antt =====
-- The engine that turns findings into pull requests, agent/pr_engine.py: the git and test commands,
-- and the patching of a file. What a command, the file system, the GitHub client and the fix
-- generator answer is a parameter, given what was done before; the state is what was done.
pub mod Commands
pub mod Bodies
pub mod Process
pub mod Worktrees
pub mod Isolation
pub mod Verified
pub mod Patches
pub mod Reports
use Prim.Native.String
use zerra.Prelude.{
  ℕ, zero, suc, ◌-◌, String, Bool, true, false, not, ◌||◌, Option, none, some, List, [], ◌∷◌, ◌++◌,
  if◌then◌else◌, ◌==◌, ltb, leb, ◌+++◌, str_eq, is_empty, starts_with, codes, length, show,
  strip_slashes, occurs_in, get_elem?,
}
use zerra.Prelude.Results.{Error, Result, err, ok, value_error, timeout_expired, file_not_found}
use zerra.Prelude.Effects.{Completed, succeeded, Action, return, raise, ◌>>=◌, ◌>>◌, attempt}
use zerra.ScanModels.{FixSuggestion}

-- `_run` with its arguments and directory, a written file, the temporary directory, and a call of
-- the GitHub client: a pull request's title, body and branch, or an issue's title, body and labels.
pub data Event : Type 0 where
  command : List String → String → Event
  write : String → String → Event
  mkdtemp : Event
  rmdir rmtree : String → Event
  pull_request : String → String → String → Event
  issue : String → String → List String → Event

-- `pr.get("html_url", "")` and `pr.get("number", 0)`.
pub record Opened : Type 0 where
  pub html_url : String
  pub number : ℕ

abbrev pub Log : Type 0
Log = List Event

pub record Host : Type 0 where
  pub runs : Log → List String → String → Result Completed
  pub temporary : Log → Result String
  pub rmdir_fails : Log → Option Error
  pub exists : Log → String → Bool
  pub read_text : Log → String → Result String
  pub write_fails : Log → Option Error
  -- Whether package.json parses, and has a script named "test".
  pub has_test_script : Log → String → Result Bool
  pub create_pull_request : Log → Event → Result Opened
  pub post_issue : Log → Event → Result Opened
  -- `str(exc)`.
  pub message : Error → String
  -- `re.sub(r"https://(?:.*@)?github\.com", f"https://{token}@github.com", url)`.
  pub with_token : String → String → String

-- `Path(root) / file`.
abbrev pub path_join : String → String → String
path_join root file = if starts_with file "/" then file else root +++ "/" +++ file

-- `content.count(needle)`, of a needle that is not empty, after `skip` characters.
count_from : String → ℕ → String → ℕ
count_from needle skip String.[] = 0
count_from needle (suc skip) (String.◌∷◌ c s) = count_from needle skip s
count_from needle zero (String.◌∷◌ c s) =
    let found = suc (count_from needle (length (codes needle) - 1) s) in
    let rest = count_from needle zero s in
    if starts_with (String.◌∷◌ c s) needle then found else rest

unfoldable pub count : String → String → ℕ
unfolding count_from
count needle content = count_from needle 0 content

drop_from : ℕ → String → String
drop_from zero s = s
drop_from (suc n) String.[] = ""
drop_from (suc n) (String.◌∷◌ c s) = drop_from n s

-- `content.replace(needle, fixed, 1)`.
unfoldable pub replace_first : String → String → String → String
unfolding drop_from
replace_first needle fixed String.[] = ""
replace_first needle fixed (String.◌∷◌ c s) =
    let rest = replace_first needle fixed s in
    if starts_with (String.◌∷◌ c s) needle
    then fixed +++ drop_from (length (codes needle)) (String.◌∷◌ c s)
    else String.◌∷◌ c rest

-- `_TEST_NOT_FOUND_SENTINEL`.
abbrev pub test_not_found : String
test_not_found = "__test_runner_not_found__"

module _ (host : Host) where
  unfoldable pub perform : {V : Type 0} → (Log → Result V) → Event → Action Log V
  perform answer e log = (answer log, e ∷ log)

  unfoldable pub run : List String → String → Action Log Completed
  unfolding perform
  run argv cwd = perform (λ log. host.runs log argv cwd) (command argv cwd)

  unfoldable pub raise_if : Option Error → Result (Unit {0})
  raise_if none = ok tt
  raise_if (some e) = err e

  unfoldable pub write_text : String → String → Action Log (Unit {0})
  unfolding perform raise_if
  write_text path text = perform (λ log. raise_if (host.write_fails log)) (write path text)

  unfoldable pub reading : String → Action Log String
  reading path log = (host.read_text log path, log)

  -- The body of the `try` of `_apply_patch_locally`.
  unfoldable pub replaced : String → FixSuggestion → String → Action Log (Bool × String)
  unfolding write_text count replace_first
  replaced target fix content =
      if is_empty fix.original_code
      then return (false, "No original_code snippet provided — cannot apply fix")
      else if count fix.original_code content == 0
      then return (false, "Original code snippet not found verbatim in " +++ fix.file_path)
      else if ltb 1 (count fix.original_code content)
      then return (
        false,
        "Original code snippet appears "
            +++ show (count fix.original_code content)
            +++ " times in "
            +++ fix.file_path
            +++ "; "
            +++ "refusing to apply to avoid corrupting the wrong occurrence",
      )
      else (write_text target (replace_first fix.original_code fix.fixed_code content)
          >> return (true, ""))

  -- `_apply_patch_locally`, given whether the file is there.
  unfoldable pub patch_target : Bool → String → FixSuggestion → Action Log (Bool × String)
  unfolding replaced reading
  patch_target there target fix =
      if there
      then attempt (reading target >>= replaced target fix)
          (λ (e : Error). return (false, host.message e))
      else return (false, "File not found: " +++ fix.file_path)

  unfoldable pub apply_patch_locally : String → FixSuggestion → Action Log (Bool × String)
  unfolding patch_target
  apply_patch_locally repo_path fix log =
      patch_target (host.exists log (path_join repo_path fix.file_path))
        (path_join repo_path fix.file_path) fix log
