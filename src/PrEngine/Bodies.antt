-- ===== src/PrEngine/Bodies.antt =====
-- The texts of agent/pr_engine.py: the body of a pull request and that of an issue.
use zerra.Prelude.{
  ℕ, String, Bool, ◌||◌, ◌+++◌, Option, none, some, [], ◌∷◌, map, all, if◌then◌else◌, ◌==◌, codes,
  join, show, split_at, strip, truthy, or_else, without,
}
use zerra.ScanModels.{Severity, VulnerabilityType, Finding, FixSuggestion}

abbrev pub vulnerability_type_value : VulnerabilityType → String
vulnerability_type_value VulnerabilityType.sast = "sast"
vulnerability_type_value VulnerabilityType.sca = "sca"
vulnerability_type_value VulnerabilityType.secret = "secret"
vulnerability_type_value VulnerabilityType.misconfig = "misconfig"
vulnerability_type_value VulnerabilityType.dast = "dast"

-- `severity.value.upper()`.
abbrev pub severity_upper : Severity → String
severity_upper Severity.critical = "CRITICAL"
severity_upper Severity.high = "HIGH"
severity_upper Severity.medium = "MEDIUM"
severity_upper Severity.low = "LOW"
severity_upper Severity.info = "INFO"

abbrev severity_emoji : Severity → String
severity_emoji Severity.critical = "🔴"
severity_emoji Severity.high = "🟠"
severity_emoji Severity.medium = "🟡"
severity_emoji Severity.low = "🟢"
severity_emoji Severity.info = "⚪"

-- `text or default`, for an optional text.
abbrev pub text_or : Option String → String → String
text_or text default = if truthy text then or_else text default else default

-- `finding.line_start or '?'`.
abbrev pub line_or : Option ℕ → String
line_or none = "?"
line_or (some line) = if line == 0 then "?" else show line

-- `textwrap.dedent`, of a text that has lines with no indentation: only a line of spaces and tabs
-- changes, to an empty one.
unfoldable pub dedent : String → String
dedent text = join "\n" (
    map
      (λ (line : String). if all (λ (c : ℕ). (c == 32) || (c == 9)) (codes line) then "" else line)
      (split_at (λ (c : ℕ). c == 10) text))

-- The link to a weakness.
abbrev cwe_link : String → String
cwe_link cwe_id =
    "["
    +++ cwe_id
    +++ "](https://cwe.mitre.org/data/definitions/"
    +++ without "CWE-" cwe_id
    +++ ".html)"

abbrev scanner_link : String
scanner_link = "[Zerra](https://github.com/sjsreehari/zerra)"

-- A score as `if score` and `f"{score:.1f}"` read it.
module _ {F : Type 0} (is_zero : F → Bool) (one_decimal : F → String) where
  cvss_note : Option F → String
  cvss_note none = ""
  cvss_note (some score) = if is_zero score then "" else " (CVSS: " +++ one_decimal score +++ ")"

  unfoldable pub build_pr_body : Finding F → FixSuggestion → String
  unfolding dedent cvss_note
  build_pr_body finding fix =
      let cwe : String =
        if truthy finding.cwe_id
        then " (" +++ cwe_link (or_else finding.cwe_id "") +++ ")"
        else "" in
      let owasp : String =
        if truthy finding.owasp_category then " — " +++ or_else finding.owasp_category "" else "" in
      let fixed_code : String = text_or (some fix.fixed_code) "(see diff)" in
      strip (
        dedent (
          join "\n" (
            ""
            ∷ ("## " +++ severity_emoji finding.severity +++ " Security Fix: " +++ finding.title)
            ∷ ""
            ∷ ("**Severity:** "
                +++ severity_upper finding.severity
                +++ cvss_note finding.cvss_score)
            ∷ ("**Category:** "
                +++ vulnerability_type_value finding.vulnerability_type
                +++ cwe
                +++ owasp)
            ∷ ("**File:** `"
                +++ or_else finding.file_path "None"
                +++ ":"
                +++ line_or finding.line_start
                +++ "`")
            ∷ ""
            ∷ "---"
            ∷ ""
            ∷ "### Vulnerability"
            ∷ ""
            ∷ finding.description
            ∷ ""
            ∷ "### Vulnerable Code"
            ∷ ""
            ∷ "```"
            ∷ (text_or finding.code_snippet "(see file diff)")
            ∷ "```"
            ∷ ""
            ∷ "### Fix Applied"
            ∷ ""
            ∷ fix.explanation
            ∷ ""
            ∷ "```"
            ∷ fixed_code
            ∷ "```"
            ∷ ""
            ∷ "---"
            ∷ ""
            ∷ "### Verification"
            ∷ ""
            ∷ "- ✅ Fix generated by Zerra pattern-based rules"
            ∷ "- ✅ Applied locally and verified"
            ∷ "- ✅ Project tests run (if available)"
            ∷ "- ✅ No new findings introduced"
            ∷ ""
            ∷ "---"
            ∷ ""
            ∷ ("> 🤖 This PR was opened automatically by " +++ scanner_link
                +++ " — your local-first security scanner.")
            ∷ "> **Review this diff before merging.** Zerra never merges to your default branch."
            ∷ ""
            ∷ ("Finding ID: `" +++ finding.id +++ "`")
            ∷ ""
            ∷ [])))

module _ {F : Type 0} where
  unfoldable pub build_issue_body : Finding F → String
  unfolding dedent
  build_issue_body finding =
      let cwe : String =
        if truthy finding.cwe_id then cwe_link (or_else finding.cwe_id "") else "N/A" in
      let owasp : String = text_or finding.owasp_category "N/A" in
      strip (
        dedent (
          join "\n" (
            ""
            ∷ ("## " +++ severity_emoji finding.severity +++ " " +++ finding.title)
            ∷ ""
            ∷ "| Field | Value |"
            ∷ "|---|---|"
            ∷ ("| **Severity** | " +++ severity_upper finding.severity +++ " |")
            ∷ ("| **Type** | " +++ vulnerability_type_value finding.vulnerability_type +++ " |")
            ∷ ("| **CWE** | " +++ cwe +++ " |")
            ∷ ("| **OWASP** | " +++ owasp +++ " |")
            ∷ ("| **File** | `"
                +++ or_else finding.file_path "None"
                +++ ":"
                +++ line_or finding.line_start
                +++ "` |")
            ∷ ("| **Rule** | `" +++ text_or finding.rule_id "N/A" +++ "` |")
            ∷ ""
            ∷ "### Description"
            ∷ ""
            ∷ finding.description
            ∷ ""
            ∷ "### Vulnerable Code"
            ∷ ""
            ∷ "```"
            ∷ (text_or finding.code_snippet "(snippet not available)")
            ∷ "```"
            ∷ ""
            ∷ "### Recommended Fix"
            ∷ ""
            ∷ "No automated fix is available for this finding. Please review manually:"
            ∷ ""
            ∷ "1. Identify all locations where this pattern occurs"
            ∷ "2. Apply the principle of least privilege / input validation"
            ∷ ("3. Consult [OWASP guidelines for "
                +++ text_or (some owasp) "this category"
                +++ "](https://owasp.org/Top10/)")
            ∷ "4. Add tests to prevent regression"
            ∷ ""
            ∷ "---"
            ∷ ""
            ∷ ("> 🤖 Reported by " +++ scanner_link +++ " security scanner.  ")
            ∷ ("> Finding ID: `" +++ finding.id +++ "`")
            ∷ ""
            ∷ [])))
