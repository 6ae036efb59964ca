-- ===== src/Examples/Deliveries.antt =====
-- Notifications, webhooks and recommendations on concrete inputs.
use zerra.Prelude.{
  ℕ, ◌≡◌, refl, String, Bool, true, Option, none, some, List, [], ◌∷◌, All, str_mem, str_eq,
  is_some, count_if, show, not, ◌==◌, join, ◌+++◌, if◌then◌else◌,
}
use zerra.Prelude.Dict.{lookup}
use zerra.Prelude.Effects.{ℤ}
use zerra.Prelude.Results.{ok, is_ok}
use zerra.Contracts.{RiskCard, Verdict}
use zerra.ScanModels.{
  Severity, is_critical, Finding, ScanResult, security_score, total_weight, critical_count,
  high_count, medium_count, low_count,
}
use zerra.Notifications.{NotificationConfig, from_env, notify_scan_complete, init_channels}
use zerra.Notifications.Channels.{IsConfigured, from_env-IsConfigured}
use zerra.Notifications.Dispatch.{IsRelevant, notify_scan_complete_lem}
use zerra.Webhooks.{
  verify_github_signature, compute_github_signature, extract_github_event, Payload,
}
use zerra.Webhooks.Signatures.{verify_github_signature_lem, extract_github_event_lem}
use zerra.Webhooks.Comments.{format_scan_comment, top_findings}
use zerra.Webhooks.Comments.Listing.{top_findings_lem}
use zerra.Examples.{scan, leaked}

abbrev channels : NotificationConfig
channels = record {
  discord_webhook_url = some "https://discord.example";
  email_smtp_host = none;
  email_smtp_port = ℤ.pos 587;
  email_smtp_user = none;
  email_smtp_password = none;
  email_from = none;
  email_to = [];
  whatsapp_api_url = none;
  whatsapp_api_token = none;
  whatsapp_phone_number = none;
  teams_webhook_url = some "https://teams.example";
  min_severity_discord = Severity.low;
  min_severity_email = Severity.medium;
  min_severity_whatsapp = Severity.critical;
  min_severity_teams = Severity.medium;
}

-- An SMTP host is set, and no recipient.
abbrev env : String → Option String
env name = if str_eq name "ZERRA_SMTP_HOST" then some "smtp.example" else none

abbrev to_int : String → Option ℤ
to_int text = if str_eq text "587" then some (ℤ.pos 587) else none

from_env-IsConfigured_example :
    ((config : NotificationConfig) → from_env to_int env ≡ some config → IsConfigured env config)
    × (is_some (from_env to_int env) ≡ true)
from_env-IsConfigured_example = from_env-IsConfigured to_int env

-- The first channel raises, the second does not.
abbrev sends : String → List (Finding ℕ) → Bool
sends name findings = str_eq name "teams"

notify_scan_complete_lem_example :
    ((name : String)
      → is_some (lookup name (notify_scan_complete channels sends scan).results)
        ≡ str_mem name (init_channels channels))
    × All (IsRelevant channels) (notify_scan_complete channels sends scan).sent
notify_scan_complete_lem_example = notify_scan_complete_lem channels sends scan

-- The critical finding comes last in the scan.
abbrev two_findings : ScanResult ℕ
two_findings = record scan { findings = record leaked { severity = Severity.info } ∷ leaked ∷ [] }

top_findings_lem_example :
    count_if (λ (f : Finding ℕ). is_critical f.severity) (top_findings two_findings) ≡ 1
unfolding critical_count
top_findings_lem_example = top_findings_lem two_findings

-- No duration: no status either.
commented :
    format_scan_comment show (λ n. not (n == 0)) (some scan)
    ≡ join "\n" (
        "## ⚠\u{fe0f} Zerra Security Scan — Grade: **C**" ∷ "" ∷ "" ∷ "" ∷ "### Finding Summary"
        ∷ "" ∷ "| 🔴 Critical | 🟠 High | 🟡 Medium | 🟢 Low |"
        ∷ "|:-----------:|:-------:|:---------:|:------:|" ∷ "| 1 | 0 | 0 | 0 |" ∷ ""
        ∷ "### Top Findings" ∷ "" ∷ "- 🔴 **Hardcoded token** — `src/app.py:3`" ∷ "" ∷ "---"
        ∷ "*Powered by [Zerra Security Scanner](https://github.com/sjsreehari/zerra)*" ∷ [])
unfolding format_scan_comment security_score total_weight critical_count high_count medium_count
    low_count show
commented = refl

abbrev digest : String → String → String
digest secret text = text

verify_github_signature_lem_example :
    is_ok (verify_github_signature digest (some "key") "body" (some "sha256=body") true) ≡ true
verify_github_signature_lem_example =
    verify_github_signature_lem digest (some "key") "body" (some "sha256=body") true

abbrev parse : String → Option String
parse text = some text

abbrev body : String
body = "body"

abbrev header : Option String
header = some "sha256=body"

delivered :
    extract_github_event digest parse (some "key") body none header ≡ ok ("push", (body, body))
unfolding extract_github_event verify_github_signature compute_github_signature
delivered = refl

extract_github_event_lem_example :
    (header ≡ some ("sha256=" +++ digest "key" body)) × (body ≡ body) × (parse body ≡ some body)
extract_github_event_lem_example =
    extract_github_event_lem digest parse "key" body none header {kind = "push"} {raw = body}
      {payload = body} delivered

abbrev installation : Payload
installation = record {
  ref = none;
  repository = record { full_name = none; clone_url = none };
  commits = [];
  after = none;
  sender_login = some "octocat";
  action = some "created";
  head = record { repo = none; ref = none; sha = none };
  number = none;
  repositories = some (record { full_name = some "a/b"; clone_url = none } ∷ []);
  repositories_added = none;
}

abbrev risk_card : RiskCard ℕ
risk_card = record {
  id = "card-1";
  identity_id = "human-alice";
  call_ids = "call-1" ∷ [];
  verdict = Verdict.block;
  confidence = 90;
  graph_risk_score = 90;
  sequence_risk_score = 0;
  trust_score = 9925;
  owasp_tag = "OWASP API1: Broken Object Level Authorization";
  mitre_tag = "T1190-adjacent: Exploit Public-Facing Application";
  evidence = "call call-1";
  timestamp = 5;
  factors = [];
}
