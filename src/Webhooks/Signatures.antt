-- ===== src/Webhooks/Signatures.antt =====
-- The checks of agent/webhook_security.py and the routing of agent/integrations/webhook_handler.py.
use zerra.Prelude.{
  ◌≡◌, refl, String, Bool, false, not, ◌&&◌, Option, none, some, List, [], ◌∷◌, map, arith, length,
  str_eq, str_eq_iff, str_mem, truthy, ◌+++◌, or_else, if◌then◌else◌,
}
use zerra.Prelude.Results.{ok, is_ok}
use zerra.Webhooks.{
  compute_github_signature, verify_github_signature, extract_github_event, Payload, Repository,
  WebhookEvent, parse_webhook, parse_installation_event, installed,
}

length-map : (f : Repository → WebhookEvent) (rs : List Repository) → length (map f rs) ≡ length rs
length-map f [] = refl
length-map f (r ∷ rs) = omega (arith, length-map f rs)

module _ (hexdigest : String → String → String) where
  -- With a secret, a body is accepted exactly under its own digest in a header that is not empty, strict or not; without one, a
  -- strict check refuses all and a permissive one accepts all.
  pub verify_github_signature_lem :
      (secret : Option String) (body : String) (header : Option String) (strict : Bool)
      → is_ok (verify_github_signature hexdigest secret body header strict) ≡ elim secret [
        | none ↦ not strict
        | some key ↦ elim header [
          | none ↦ false
          | some signature ↦
              truthy (some signature) && str_eq ("sha256=" +++ hexdigest key body) signature
        ]
      ]
  unfolding verify_github_signature compute_github_signature
  verify_github_signature_lem none body header strict = ground arith
  verify_github_signature_lem (some key) body none strict = refl
  verify_github_signature_lem (some key) body (some signature) strict =
      ground (arith, str_eq_iff ("sha256=" +++ hexdigest key body) signature)

  -- With a secret configured, an event is extracted from a delivery that carries the digest of its
  -- body only, and the payload is what the body parses to.
  pub extract_github_event_lem :
      {J : Type 0} (loads : String → Option J) (key body : String) (event header : Option String)
      {kind raw : String} {payload : J}
      → extract_github_event hexdigest loads (some key) body event header
        ≡ ok (kind, (raw, payload))
      → (header ≡ some ("sha256=" +++ hexdigest key body))
        × (raw ≡ body)
        × (loads body ≡ some payload)
  unfolding extract_github_event verify_github_signature compute_github_signature
  extract_github_event_lem loads key body event none h = cc
  extract_github_event_lem loads key body event (some signature) h =
      ground (arith, str_eq_iff ("sha256=" +++ hexdigest key body) signature)

length-parse_installation_event :
    (payload : Payload) → length (parse_installation_event payload) ≡ length (installed payload)
unfolding parse_installation_event
length-parse_installation_event payload = length-map _ (installed payload)

-- A push is one event, a pull request is one event exactly for the three actions that change its
-- head, an installation is one event for each of its repositories, and nothing else is an event.
pub length-parse_webhook :
    (event_type : String) (payload : Payload)
    → length (parse_webhook event_type payload) ≡ (
        if str_eq event_type "push"
        then 1
        else if str_eq event_type "pull_request"
        then (if str_mem (or_else payload.action "") ("opened" ∷ "synchronize" ∷ "reopened" ∷ [])
            then 1
            else 0)
        else if str_mem event_type ("installation" ∷ "installation_repositories" ∷ [])
        then length (installed payload)
        else 0)
unfolding parse_webhook
length-parse_webhook event_type payload = ground (arith, length-parse_installation_event payload)
