-- ===== src/ScanPolicy.antt =====
-- The deployment policy of a zerra.yml file, agent/policy_engine.py: suppressions, thresholds and
-- block rules against the result of a scan.
pub mod Gate
use zerra.Prelude.{
  ℕ, String, Bool, true, false, not, ◌&&◌, ◌||◌, Option, none, some, List, [], ◌∷◌, ◌++◌, map, ltb,
  ◌==◌, if◌then◌else◌, filter, any, length, take, is_nil, count_if, str_eq, starts_with, occurs_in,
  truthy, join, ◌+++◌, show, or_else,
}
use zerra.ScanModels.{Finding, ScanResult, is_critical, is_high, is_secret, security_score}

-- The index of a grade; what is no grade comes after the last one.
unfoldable pub grade_order : String → ℕ
grade_order g =
    if str_eq g "A+"
    then 0
    else if str_eq g "A"
    then 1
    else if str_eq g "B"
    then 2
    else if str_eq g "C"
    then 3
    else if str_eq g "D"
    then 4
    else if str_eq g "F"
    then 5
    else 6

unfoldable pub grade_worse_than : String → String → Bool
grade_worse_than actual minimum = ltb (grade_order minimum) (grade_order actual)

pub record PolicyViolation : Type 0 where
  pub rule : String
  pub message : String
  pub severity : String

is_error : PolicyViolation → Bool
is_error v = str_eq v.severity "error"

is_warning : PolicyViolation → Bool
is_warning v = str_eq v.severity "warning"

-- The properties of `PolicyResult`.
pub passed : List PolicyViolation → Bool
passed violations = not (any is_error violations)

errors : List PolicyViolation → List PolicyViolation
errors violations = filter is_error violations

warnings : List PolicyViolation → List PolicyViolation
unfolding is_warning
warnings violations = filter is_warning violations

-- One entry of `suppressions`. `expires` is the day that its text names, or `some none` for a text
-- that is no ISO date.
pub record Suppression : Type 0 where
  pub rule_id : Option String
  pub file_path : Option String
  pub expires : Option (Option ℕ)

-- One entry of `block_rules`.
pub record BlockRule : Type 0 where
  pub cwe : Option String
  pub owasp : Option String
  pub rule_id : Option String

-- The keys of the file that `evaluate` reads; `none` is a missing key.
pub record Config : Type 0 where
  pub min_grade : Option String
  pub max_critical : Option ℕ
  pub max_high : Option ℕ
  pub fail_on_new_secrets : Bool
  pub block_rules : List BlockRule
  pub suppressions : List Suppression

unfoldable pub default_policy : Config
default_policy = record {
  min_grade = some "D";
  max_critical = some 5;
  max_high = some 20;
  fail_on_new_secrets = false;
  block_rules = [];
  suppressions = [];
}

-- A place where `_load` looks: no file, a file that cannot be read, a file's configuration.
pub data Candidate : Type 0 where
  absent unreadable : Candidate
  found : Config → Candidate

load : List Candidate → Config
load [] = default_policy
load (found config ∷ _) = config
load (_ ∷ candidates) = load candidates

-- `expires` names a day before today.
pub is_expired : ℕ → Suppression → Bool
is_expired today s = elim s.expires [
  | none ↦ false
  | some day ↦ elim day [ none ↦ false | some d ↦ ltb d today ]
]

-- `not pattern or (value and test)`.
abbrev pub matches : (String → String → Bool) → Option String → Option String → Bool
matches test none value = true
matches test (some pattern) none = not (truthy (some pattern))
matches test (some pattern) (some value) =
    not (truthy (some pattern)) || (truthy (some value) && test pattern value)

-- `bool(pattern and value and test)`.
abbrev hits : (String → String → Bool) → Option String → Option String → Bool
hits test (some pattern) (some value) =
    truthy (some pattern) && truthy (some value) && test pattern value
hits test _ _ = false

-- `pattern in value` and `value.startswith(pattern)`.
abbrev within : String → String → Bool
within pattern value = occurs_in pattern value

abbrev pub begins : String → String → Bool
begins pattern value = starts_with value pattern

-- `str(x)` of an optional value.
abbrev or_none_text : Option String → String
or_none_text x = or_else x "None"

abbrev line_text : Option ℕ → String
line_text none = "None"
line_text (some n) = show n

error : String → String → PolicyViolation
error rule message = record { rule = rule; message = message; severity = "error" }

-- One of the two count checks.
pub count_violations : String → String → ℕ → ℕ → List PolicyViolation
unfolding error
count_violations rule name n limit =
    if ltb limit n
    then error rule
        ("Found " +++ show n +++ " " +++ name +++ " findings (max allowed: " +++ show limit +++ ")")
      ∷ []
    else []

module _ {F : Type 0} where
  unfoldable pub is_suppressed : ℕ → Finding F → List Suppression → Bool
  is_suppressed today finding [] = false
  is_suppressed today finding (s ∷ suppressions) =
      let rest = is_suppressed today finding suppressions in
      if is_expired today s
      then rest
      else if matches within s.rule_id finding.rule_id
          && matches begins s.file_path finding.file_path
      then true
      else rest

  unfoldable pub effective : ℕ → Config → ScanResult F → List (Finding F)
  effective today config result =
      filter (λ (f : Finding F). not (is_suppressed today f config.suppressions)) result.findings

  -- The violation of a rule by one finding, if there is one.
  block_violation : BlockRule → Finding F → Option PolicyViolation
  unfolding error
  block_violation rule f =
      if hits begins rule.cwe f.cwe_id
      then some (
          error ("block:" +++ or_else rule.cwe "") (
            "Blocked finding: "
            +++ f.title
            +++ " ["
            +++ or_else f.cwe_id ""
            +++ "] in "
            +++ or_none_text f.file_path
            +++ ":"
            +++ line_text f.line_start))
      else if hits within rule.owasp f.owasp_category
      then some (
          error ("block:" +++ or_else rule.owasp "")
            ("Blocked OWASP category " +++ or_else rule.owasp "" +++ ": " +++ f.title))
      else if hits within rule.rule_id f.rule_id
      then some (
          error ("block:" +++ or_else rule.rule_id "")
            ("Blocked rule " +++ or_else rule.rule_id "" +++ ": " +++ f.title))
      else none

  -- The inner loop ends with the first finding that violates the rule.
  first_violation : BlockRule → List (Finding F) → List PolicyViolation
  first_violation rule [] = []
  first_violation rule (f ∷ fs) = elim (block_violation rule f) [
    | none ↦ first_violation rule fs
    | some v ↦ v ∷ []
  ]

  pub block_violations : List BlockRule → List (Finding F) → List PolicyViolation
  block_violations [] fs = []
  block_violations (rule ∷ rules) fs = first_violation rule fs ++ block_violations rules fs

  pub grade_violations : Config → ScanResult F → List PolicyViolation
  unfolding error
  grade_violations config result =
      let min_grade = or_else config.min_grade "D" in
      if grade_worse_than (security_score result) min_grade
      then error "min_grade"
          ("Security grade " +++ security_score result +++ " is worse than required " +++ min_grade)
        ∷ []
      else []

  pub secret_violations : Config → List (Finding F) → List PolicyViolation
  unfolding error
  secret_violations config fs =
      let secrets = filter (λ (f : Finding F). is_secret f.vulnerability_type) fs in
      if config.fail_on_new_secrets && not (is_nil secrets)
      then error "fail_on_new_secrets" (
          "Found "
          +++ show (length secrets)
          +++ " secret(s): "
          +++ join ", " (map (λ (f : Finding F). f.title) (take 3 secrets)))
        ∷ []
      else []

  -- `PolicyEngine.evaluate`, on the day `today`.
  unfoldable pub evaluate : ℕ → Config → ScanResult F → List PolicyViolation
  evaluate today config result =
      let fs = effective today config result in
      grade_violations config result
      ++ (count_violations "max_critical" "CRITICAL"
            (count_if (λ (f : Finding F). is_critical f.severity) fs)
            (or_else config.max_critical 99)
          ++ (count_violations "max_high" "HIGH"
                (count_if (λ (f : Finding F). is_high f.severity) fs) (or_else config.max_high 99)
              ++ (secret_violations config fs ++ block_violations config.block_rules fs)))
