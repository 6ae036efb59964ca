-- ===== src/Notifications.antt =====
-- The notification dispatcher, agent/notifications/dispatcher.py. A channel is its name; what a
-- channel's sending does, network and all, is a parameter that tells whether it raised nothing.
pub mod Channels
pub mod Dispatch
use zerra.Prelude.{
  ℕ, String, Bool, true, false, not, ◌&&◌, Option, none, some, List, [], ◌∷◌, ◌++◌, leb,
  if◌then◌else◌, filter, is_nil, str_eq, truthy, or_else, split_at, ◌==◌,
}
use mathlib.Core.Option
use zerra.Prelude.Dict.{Dict, insert}
use zerra.Prelude.Effects.{ℤ}
use zerra.ScanModels.{Severity, Finding, ScanResult}

pub record NotificationConfig : Type 0 where
  pub discord_webhook_url : Option String
  pub email_smtp_host : Option String
  pub email_smtp_port : ℤ
  pub email_smtp_user : Option String
  pub email_smtp_password : Option String
  pub email_from : Option String
  pub email_to : List String
  pub whatsapp_api_url : Option String
  pub whatsapp_api_token : Option String
  pub whatsapp_phone_number : Option String
  pub teams_webhook_url : Option String
  pub min_severity_discord : Severity
  pub min_severity_email : Severity
  pub min_severity_whatsapp : Severity
  pub min_severity_teams : Severity

-- `from_env`, with the port read. `split` of a text has at least one piece, an empty one if need be.
unfoldable pub configured : (String → Option String) → ℤ → NotificationConfig
configured env port = record {
  discord_webhook_url = env "ZERRA_DISCORD_WEBHOOK_URL";
  email_smtp_host = env "ZERRA_SMTP_HOST";
  email_smtp_port = port;
  email_smtp_user = env "ZERRA_SMTP_USER";
  email_smtp_password = env "ZERRA_SMTP_PASSWORD";
  email_from = env "ZERRA_EMAIL_FROM";
  email_to = split_at (λ c. c == b',') (or_else (env "ZERRA_EMAIL_TO") "");
  whatsapp_api_url = env "ZERRA_WHATSAPP_API_URL";
  whatsapp_api_token = env "ZERRA_WHATSAPP_API_TOKEN";
  whatsapp_phone_number = env "ZERRA_WHATSAPP_PHONE";
  teams_webhook_url = env "ZERRA_TEAMS_WEBHOOK_URL";
  min_severity_discord = Severity.low;
  min_severity_email = Severity.medium;
  min_severity_whatsapp = Severity.critical;
  min_severity_teams = Severity.medium;
}

-- `NotificationConfig.from_env`, with the environment's variables. `int` of a text is a parameter;
-- it answers `none` where it raises a ValueError, which is then the call's.
unfoldable pub from_env : (String → Option ℤ) → (String → Option String) → Option NotificationConfig
from_env to_int env = Option.map (configured env) (to_int (or_else (env "ZERRA_SMTP_PORT") "587"))

abbrev severity_order : Severity → ℕ
severity_order Severity.info = 0
severity_order Severity.low = 1
severity_order Severity.medium = 2
severity_order Severity.high = 3
severity_order Severity.critical = 4

abbrev severity_meets_threshold : Severity → Severity → Bool
severity_meets_threshold finding_severity min_severity =
    leb (severity_order min_severity) (severity_order finding_severity)

-- `_init_channels`: the names, in order.
unfoldable pub init_channels : NotificationConfig → List String
init_channels config =
    (if truthy config.discord_webhook_url then "discord" ∷ [] else [])
    ++ ((if truthy config.email_smtp_host && not (is_nil config.email_to) then "email" ∷ [] else [])
        ++ ((if truthy config.whatsapp_api_url && truthy config.whatsapp_api_token
              then "whatsapp" ∷ []
              else [])
            ++ (if truthy config.teams_webhook_url then "teams" ∷ [] else [])))

pub min_severity_for : NotificationConfig → String → Severity
min_severity_for config name =
    if str_eq name "discord"
    then config.min_severity_discord
    else if str_eq name "email"
    then config.min_severity_email
    else if str_eq name "whatsapp"
    then config.min_severity_whatsapp
    else if str_eq name "teams"
    then config.min_severity_teams
    else Severity.medium

-- What a call tried to send to whom, and the returned dict.
pub record Outcome (F : Type 0) : Type 0 where
  pub results : Dict Bool
  pub sent : List (String × List (Finding F))

module _ {F : Type 0} where
  relevant_findings : NotificationConfig → String → ScanResult F → List (Finding F)
  relevant_findings config name r =
      filter (λ (f : Finding F). severity_meets_threshold f.severity (min_severity_for config name))
        r.findings

  -- One round of the loop of `notify_scan_complete`.
  notify_one :
      NotificationConfig
      → (String → List (Finding F) → Bool)
      → ScanResult F
      → Outcome F
      → String
      → Outcome F
  notify_one config sends r o name =
      let fs = relevant_findings config name r in
      if is_nil fs && not (is_nil r.findings)
      then record o { results = insert name true o.results }
      else record {
        results = insert name (sends name fs) o.results;
        sent = o.sent ++ (name, fs) ∷ [];
      }

  notify_from :
      NotificationConfig
      → (String → List (Finding F) → Bool)
      → ScanResult F
      → Outcome F
      → List String
      → Outcome F
  notify_from config sends r o [] = o
  notify_from config sends r o (name ∷ names) =
      notify_from config sends r (notify_one config sends r o name) names

  pub notify_scan_complete :
      NotificationConfig → (String → List (Finding F) → Bool) → ScanResult F → Outcome F
  notify_scan_complete config sends r =
      notify_from config sends r (record { results = []; sent = [] }) (init_channels config)

  -- `notify_finding`, for the channels `names`.
  notify_finding_from :
      NotificationConfig
      → (String → Finding F → Bool)
      → Finding F
      → Dict Bool
      → List String
      → Dict Bool
  notify_finding_from config sends f results [] = results
  notify_finding_from config sends f results (name ∷ names) =
      notify_finding_from config sends f
        (if severity_meets_threshold f.severity (min_severity_for config name)
          then insert name (sends name f) results
          else results)
        names

  notify_finding : NotificationConfig → (String → Finding F → Bool) → Finding F → Dict Bool
  notify_finding config sends f = notify_finding_from config sends f [] (init_channels config)

test_channels_from : (String → Bool) → Dict Bool → List String → Dict Bool
test_channels_from sends results [] = results
test_channels_from sends results (name ∷ names) =
    test_channels_from sends (insert name (sends name) results) names

test_all_channels : NotificationConfig → (String → Bool) → Dict Bool
unfolding test_channels_from
test_all_channels config sends = test_channels_from sends [] (init_channels config)
