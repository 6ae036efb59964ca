-- ===== src/Webhooks/Comments.antt =====
-- The comment on a scan, format_scan_comment of agent/integrations/webhook_handler.py.
pub mod Listing
use zerra.Prelude.{
  ℕ, zero, suc, ◌-◌, ◌≡◌, refl, String, Bool, true, false, not, Option, none, some, List, [], ◌∷◌,
  ◌++◌, map, arith, length, take, count_if, is_nil, ltb, leb, str_eq, ◌==◌, codes, join, show,
  truthy, ◌+++◌, or_else, if◌then◌else◌, Bool-cases, inl, inr, ◌⊎◌,
}
use zerra.ScanModels.{
  Severity, severity_value, is_critical, ScanStatus, Finding, ScanResult, critical_count,
  high_count, medium_count, low_count, security_score,
}

-- `s < t` of texts, by their characters' codes.
abbrev codes_less : List ℕ → List ℕ → Bool
codes_less cs [] = false
codes_less [] (d ∷ ds) = true
codes_less (c ∷ cs) (d ∷ ds) =
    let rest = codes_less cs ds in if ltb c d then true else if c == d then rest else false

abbrev value_less : Severity → Severity → Bool
value_less s t = codes_less (codes (severity_value s)) (codes (severity_value t))

abbrev status_value : ScanStatus → String
status_value ScanStatus.queued = "queued"
status_value ScanStatus.running = "running"
status_value ScanStatus.completed = "completed"
status_value ScanStatus.failed = "failed"
status_value ScanStatus.cancelled = "cancelled"

abbrev grade_emoji : String → String
grade_emoji score =
    if str_eq score "A+"
    then "🏆"
    else if str_eq score "A"
    then "✅"
    else if str_eq score "B"
    then "👍"
    else if str_eq score "C"
    then "⚠\u{fe0f}"
    else if str_eq score "D"
    then "🟠"
    else if str_eq score "F"
    then "🔴"
    else "❓"

abbrev severity_badge : Severity → String
severity_badge Severity.critical = "🔴"
severity_badge Severity.high = "🟠"
severity_badge Severity.medium = "🟡"
severity_badge Severity.low = "🟢"
severity_badge Severity.info = "🔵"

-- An optional number in an f-string.
abbrev show_line : Option ℕ → String
show_line none = "None"
show_line (some n) = show n

module _ {F : Type 0} where
  insert_sorted : Finding F → List (Finding F) → List (Finding F)
  insert_sorted f [] = f ∷ []
  insert_sorted f (g ∷ gs) =
      let rest = insert_sorted f gs in
      if value_less g.severity f.severity then g ∷ rest else f ∷ g ∷ gs

  -- `sorted(findings, key=lambda x: x.severity.value)`, which keeps the order of equal keys.
  sorted : List (Finding F) → List (Finding F)
  unfolding insert_sorted
  sorted [] = []
  sorted (f ∷ fs) = insert_sorted f (sorted fs)

  -- The findings that a comment lists.
  unfoldable pub top_findings : ScanResult F → List (Finding F)
  unfolding sorted
  top_findings r = take 10 (sorted r.findings)

  finding_line : Finding F → String
  finding_line f =
      "- "
      +++ severity_badge f.severity
      +++ " **"
      +++ f.title
      +++ "** — "
      +++ (if truthy f.file_path
          then "`" +++ or_else f.file_path "" +++ ":" +++ show_line f.line_start +++ "`"
          else "N/A")

  findings_lines : ScanResult F → List String
  unfolding finding_line top_findings
  findings_lines r =
      let many = length r.findings in
      if is_nil r.findings
      then "✅ **No security issues found!**" ∷ []
      else "### Top Findings" ∷ "" ∷ map finding_line (top_findings r)
        ++ (if ltb 10 many
            then ("\n*...and " +++ show (many - 10) +++ " more findings*") ∷ []
            else [])

  -- With the text of a duration to one decimal, and its truth. The conditional takes in the whole
  -- line. The argument is `none` for an object that is no ScanResult.
  unfoldable pub format_scan_comment : (F → String) → (F → Bool) → Option (ScanResult F) → String
  unfolding findings_lines
  format_scan_comment one_decimal is_nonzero none = "⚠\u{fe0f} Scan result format error"
  format_scan_comment one_decimal is_nonzero (some r) = join "\n" (
      ("## "
          +++ grade_emoji (security_score r)
          +++ " Zerra Security Scan — Grade: **"
          +++ security_score r
          +++ "**")
        ∷ ""
        ∷ elim r.duration_seconds [
          | none ↦ ""
          | some duration ↦
              if is_nonzero duration
              then "**Status:** "
                +++ status_value r.status
                +++ " | **Files:** "
                +++ show r.files_scanned
                +++ " | **Duration:** "
                +++ one_decimal duration
                +++ "s"
              else ""
        ]
        ∷ ""
        ∷ "### Finding Summary"
        ∷ ""
        ∷ "| 🔴 Critical | 🟠 High | 🟡 Medium | 🟢 Low |"
        ∷ "|:-----------:|:-------:|:---------:|:------:|"
        ∷ ("| "
            +++ show (critical_count r)
            +++ " | "
            +++ show (high_count r)
            +++ " | "
            +++ show (medium_count r)
            +++ " | "
            +++ show (low_count r)
            +++ " |")
        ∷ ""
        ∷ findings_lines r
      ++ "" ∷ "---" ∷ "*Powered by [Zerra Security Scanner](https://github.com/sjsreehari/zerra)*"
        ∷ [])
