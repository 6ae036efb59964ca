-- ===== src/ScanModels.antt =====
-- The scanner's data models, agent/scanner/models.py, with the counts and the letter grade of a
-- scan. Timestamps are microseconds; a generated identifier or time is a field like any other.
pub mod Grades
use zerra.Prelude.{
  ℕ, ◌+◌, ◌*◌, String, Bool, true, false, Option, List, ltb, leb, ◌==◌, if◌then◌else◌, count_if,
}
use zerra.Prelude.Dict.{Dict}

pub data Severity : Type 0 where
  critical high medium low info : Severity

abbrev pub severity_value : Severity → String
severity_value Severity.critical = "critical"
severity_value Severity.high = "high"
severity_value Severity.medium = "medium"
severity_value Severity.low = "low"
severity_value Severity.info = "info"

abbrev pub is_critical : Severity → Bool
is_critical Severity.critical = true
is_critical _ = false

abbrev pub is_high : Severity → Bool
is_high Severity.high = true
is_high _ = false

abbrev is_medium : Severity → Bool
is_medium Severity.medium = true
is_medium _ = false

abbrev is_low : Severity → Bool
is_low Severity.low = true
is_low _ = false

pub data ScanMode : Type 0 where
  quick standard deep : ScanMode

pub data ScanStatus : Type 0 where
  queued running completed failed cancelled : ScanStatus

abbrev pub is_completed : ScanStatus → Bool
is_completed ScanStatus.completed = true
is_completed _ = false

abbrev pub is_failed : ScanStatus → Bool
is_failed ScanStatus.failed = true
is_failed _ = false

pub data FindingStatus : Type 0 where
  open_finding fixed ignored false_positive : FindingStatus

abbrev pub is_open : FindingStatus → Bool
is_open FindingStatus.open_finding = true
is_open _ = false

pub data VulnerabilityType : Type 0 where
  sast sca secret misconfig dast : VulnerabilityType

abbrev pub is_secret : VulnerabilityType → Bool
is_secret VulnerabilityType.secret = true
is_secret _ = false

pub record FixSuggestion : Type 0 where
  pub file_path : String
  pub original_code : String
  pub fixed_code : String
  pub explanation : String

pub record Finding (F : Type 0) : Type 0 where
  pub id : String
  pub title : String
  pub description : String
  pub severity : Severity
  pub vulnerability_type : VulnerabilityType
  pub cwe_id : Option String
  pub cvss_score : Option F
  pub owasp_category : Option String
  pub file_path : Option String
  pub line_start : Option ℕ
  pub line_end : Option ℕ
  pub code_snippet : Option String
  pub rule_id : Option String
  pub confidence : F
  pub is_reachable : Option Bool
  pub status : FindingStatus
  pub fix_suggestion : Option FixSuggestion
  pub references : List String
  pub metadata : Dict String
  pub first_seen : ℕ
  pub package_name : Option String
  pub package_version : Option String
  pub fixed_version : Option String
  pub cve_id : Option String

pub record ScanConfig : Type 0 where
  pub repo_url : String
  pub branch : Option String
  pub commit_sha : Option String
  pub mode : ScanMode
  pub target_paths : List String
  pub excluded_paths : List String
  pub enable_sast : Bool
  pub enable_sca : Bool
  pub enable_secrets : Bool
  pub github_token : Option String
  pub max_file_size_kb : ℕ

pub record ScanResult (F : Type 0) : Type 0 where
  pub id : String
  pub repo_url : String
  pub branch : Option String
  pub commit_sha : Option String
  pub mode : ScanMode
  pub status : ScanStatus
  pub started_at : Option ℕ
  pub completed_at : Option ℕ
  pub duration_seconds : Option F
  pub findings : List (Finding F)
  pub files_scanned : ℕ
  pub languages_detected : List String
  pub error_message : Option String

module _ {F : Type 0} where
  unfoldable pub critical_count : ScanResult F → ℕ
  critical_count r = count_if (λ (f : Finding F). is_critical f.severity) r.findings

  unfoldable pub high_count : ScanResult F → ℕ
  high_count r = count_if (λ (f : Finding F). is_high f.severity) r.findings

  unfoldable pub medium_count : ScanResult F → ℕ
  medium_count r = count_if (λ (f : Finding F). is_medium f.severity) r.findings

  unfoldable pub low_count : ScanResult F → ℕ
  low_count r = count_if (λ (f : Finding F). is_low f.severity) r.findings

  unfoldable pub total_weight : ScanResult F → ℕ
  total_weight r = critical_count r * 10 + high_count r * 5 + medium_count r * 2 + low_count r * 1

  unfoldable pub security_score : ScanResult F → String
  security_score r =
      let weight = total_weight r in
      if weight == 0
      then "A+"
      else if leb weight 3
      then "A"
      else if leb weight 8
      then "B"
      else if leb weight 15
      then "C"
      else if leb weight 25
      then "D"
      else "F"
