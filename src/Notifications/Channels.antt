-- ===== src/Notifications/Channels.antt =====
-- The channels of a NotificationConfig that NotificationConfig.from_env of
-- agent/notifications/dispatcher.py reads from the environment's variables.
use zerra.Prelude.{
  ℕ, ◌≡◌, refl, ap, String, Bool, true, false, ◌&&◌, Option, none, some, List, [], ◌∷◌, ◌++◌,
  if◌then◌else◌, arith, Bool-cases, inl, inr, is_nil, is_some, ◌==◌, or_else, ap, subst, str_mem,
  truthy, split_at,
}
use Prim.Native.Char.{Char, code}
use mathlib.Core.Option
use zerra.Prelude.Effects.{ℤ}
use zerra.Notifications.{NotificationConfig, from_env, configured, init_channels}

-- The four tests of `_init_channels` decide on one name each.
abbrev named : Bool → Bool → Bool → Bool → List String
named discord email whatsapp teams =
    (if discord then "discord" ∷ [] else [])
    ++ ((if email then "email" ∷ [] else [])
        ++ ((if whatsapp then "whatsapp" ∷ [] else []) ++ (if teams then "teams" ∷ [] else [])))

abbrev IsNamed : List String → Bool → Bool → Bool → Bool → Type 0
IsNamed names discord email whatsapp teams =
    (str_mem "discord" names ≡ discord)
    × (str_mem "email" names ≡ email)
    × (str_mem "whatsapp" names ≡ whatsapp)
    × (str_mem "teams" names ≡ teams)

named_lem : (d e w t : Bool) → IsNamed (named d e w t) d e w t
named_lem d e w t = ground arith

and_true : (b : Bool) → b && true ≡ b
and_true b = ground arith

-- `split` never answers an empty list.
pieces-some :
    (c : Char) (pieces : List String)
    → is_nil {A = String}
        (elim pieces [ [] ↦ String.◌∷◌ c "" ∷ [] | piece ∷ more ↦ String.◌∷◌ c piece ∷ more ])
      ≡ false
pieces-some c [] = refl
pieces-some c (piece ∷ more) = refl

split_at-some : (test : ℕ → Bool) (s : String) → is_nil (split_at test s) ≡ false
unfolding split_at
split_at-some test String.[] = refl
split_at-some test (String.◌∷◌ c s) = elim (Bool-cases (test (code c))) [
  | inl at ↦ rw at refl
  | inr off ↦ rw off (pieces-some c (split_at test s))
]

-- Each channel is there exactly if its own variables are set to texts that are not empty.
abbrev pub IsConfigured : (String → Option String) → NotificationConfig → Type 0
IsConfigured env config =
    IsNamed (init_channels config) (truthy (env "ZERRA_DISCORD_WEBHOOK_URL"))
      (truthy (env "ZERRA_SMTP_HOST"))
      (truthy (env "ZERRA_WHATSAPP_API_URL") && truthy (env "ZERRA_WHATSAPP_API_TOKEN"))
      (truthy (env "ZERRA_TEAMS_WEBHOOK_URL"))

configured-IsConfigured :
    (env : String → Option String) (port : ℤ) → IsConfigured env (configured env port)
unfolding configured init_channels
configured-IsConfigured env port =
    rw (split_at-some (λ c. c == b',') (or_else (env "ZERRA_EMAIL_TO") ""))
      (rw (and_true (truthy (env "ZERRA_SMTP_HOST"))) (named_lem _ _ _ _))

map-IsConfigured :
    (env : String → Option String) (port : Option ℤ)
    → ((config : NotificationConfig)
        → Option.map (configured env) port ≡ some config
        → IsConfigured env config)
      × (is_some (Option.map (configured env) port) ≡ is_some port)
map-IsConfigured env none = ((λ config read. cc), refl)
map-IsConfigured env (some port) = (
  (λ config read.
      subst (IsConfigured env) (ap (λ o. or_else o (configured env port)) read)
        (configured-IsConfigured env port)),
  refl,
)

-- Where `from_env` returns, a channel is there exactly if its own variables are set to texts that
-- are not empty; for the e-mail channel it is the server's variable alone, whatever
-- ZERRA_EMAIL_TO says. It returns wherever the port is read.
pub from_env-IsConfigured :
    (to_int : String → Option ℤ) (env : String → Option String)
    → ((config : NotificationConfig) → from_env to_int env ≡ some config → IsConfigured env config)
      × (is_some (from_env to_int env) ≡ is_some (to_int (or_else (env "ZERRA_SMTP_PORT") "587")))
unfolding from_env
from_env-IsConfigured to_int env =
    map-IsConfigured env (to_int (or_else (env "ZERRA_SMTP_PORT") "587"))
