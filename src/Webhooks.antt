-- ===== src/Webhooks.antt =====
-- GitHub webhooks: the signature check of agent/webhook_security.py, and the routing of payloads of
-- agent/integrations/webhook_handler.py. The keyed digest and the JSON parser are parameters; a
-- payload is the keys that the parsers read, `none` for a missing key.
pub mod Comments
pub mod Signatures
use zerra.Prelude.{
  ℕ, String, Bool, true, false, not, ◌||◌, Option, none, some, List, [], ◌∷◌, ◌++◌, map,
  if◌then◌else◌, str_eq, str_mem, starts_with, truthy, ◌+++◌, or_else, without,
}
use zerra.Prelude.Results.{Result, ok, err, unauthorized, bad_request, ◌>>◌, ◌>>=◌}

-- `hmac.new(secret, body, hashlib.sha256).hexdigest()`, of the secret and the body.
module _ (hexdigest : String → String → String) where
  unfoldable pub compute_github_signature : String → String → String
  compute_github_signature body secret = "sha256=" +++ hexdigest secret body

  -- With `_get_webhook_secret()` given.
  unfoldable pub verify_github_signature :
      Option String → String → Option String → Bool → Result (Unit {0})
  verify_github_signature none body signature_header strict =
      if strict
      then err (unauthorized "Webhook secret not configured. Set GITHUB_WEBHOOK_SECRET.")
      else ok tt
  verify_github_signature (some secret) body signature_header strict = elim signature_header [
    | none ↦ err (unauthorized "Missing X-Hub-Signature-256 header")
    | some signature ↦
        if not (truthy (some signature))
        then err (unauthorized "Missing X-Hub-Signature-256 header")
        else if str_eq (compute_github_signature body secret) signature
        then ok tt
        else err (unauthorized "Webhook signature verification failed")
  ]

-- `_get_webhook_secret`, with the environment's variable: an unset or an empty one is no secret.
get_webhook_secret : Option String → Option String
get_webhook_secret none = none
get_webhook_secret (some raw) = if truthy (some raw) then some raw else none

-- `extract_github_event`, with the secret, the body and the two headers.
unfoldable pub extract_github_event :
    {J : Type 0}
    → (String → String → String)
    → (String → Option J)
    → Option String
    → String
    → Option String
    → Option String
    → Result (String × (String × J))
extract_github_event hexdigest loads secret body event signature = do
  verify_github_signature hexdigest secret body signature false
  elim (loads body) [
    | none ↦ err (bad_request "Invalid JSON in webhook body")
    | some payload ↦ ok (
      elim event [ none ↦ "push" | some e ↦ if truthy (some e) then e else "push" ],
      (body, payload),
    )
  ]

pub record Repository : Type 0 where
  pub full_name : Option String
  pub clone_url : Option String

pub record Commit : Type 0 where
  pub added : List String
  pub modified : List String

-- `head` of a pull request; `repo` is its repository's clone URL.
pub record Head : Type 0 where
  pub repo : Option String
  pub ref : Option String
  pub sha : Option String

pub record Payload : Type 0 where
  pub ref : Option String
  pub repository : Repository
  pub commits : List Commit
  pub after : Option String
  pub sender_login : Option String
  pub action : Option String
  pub head : Head
  pub number : Option ℕ
  pub repositories : Option (List Repository)
  pub repositories_added : Option (List Repository)

pub record WebhookEvent : Type 0 where
  pub event_type : String
  pub action : Option String
  pub repo_full_name : String
  pub repo_url : String
  pub branch : Option String
  pub commit_sha : Option String
  pub pr_number : Option ℕ
  pub sender : Option String
  pub changed_files : List String

-- `set(xs)`, in some order.
distinct : List String → List String
distinct [] = []
distinct (x ∷ xs) = let rest = distinct xs in if str_mem x rest then rest else x ∷ rest

changed_by : List Commit → List String
changed_by [] = []
changed_by (c ∷ commits) = c.added ++ (c.modified ++ changed_by commits)

-- The branch that a push is on.
branch_of : String → Option String
branch_of ref = if starts_with ref "refs/heads/" then some (without "refs/heads/" ref) else none

parse_push_event : Payload → WebhookEvent
unfolding branch_of changed_by distinct
parse_push_event payload = record {
  event_type = "push";
  action = none;
  repo_full_name = or_else payload.repository.full_name "";
  repo_url = or_else payload.repository.clone_url "";
  branch = branch_of (or_else payload.ref "");
  commit_sha = payload.after;
  pr_number = none;
  sender = payload.sender_login;
  changed_files = distinct (changed_by payload.commits);
}

parse_pull_request_event : Payload → WebhookEvent
parse_pull_request_event payload = record {
  event_type = "pull_request";
  action = payload.action;
  repo_full_name = or_else payload.repository.full_name "";
  repo_url = or_else payload.head.repo (or_else payload.repository.clone_url "");
  branch = payload.head.ref;
  commit_sha = payload.head.sha;
  pr_number = payload.number;
  sender = payload.sender_login;
  changed_files = [];
}

-- The repositories that an installation names.
unfoldable pub installed : Payload → List Repository
installed payload = or_else payload.repositories (or_else payload.repositories_added [])

parse_installation_event : Payload → List WebhookEvent
unfolding installed
parse_installation_event payload =
    map
      (λ (repo : Repository). record {
        event_type = "installation";
        action = payload.action;
        repo_full_name = or_else repo.full_name "";
        repo_url = "https://github.com/" +++ or_else repo.full_name "" +++ ".git";
        branch = none;
        commit_sha = none;
        pr_number = none;
        sender = payload.sender_login;
        changed_files = [];
      })
      (installed payload)

pub parse_webhook : String → Payload → List WebhookEvent
parse_webhook event_type payload =
    if str_eq event_type "push"
    then parse_push_event payload ∷ []
    else if str_eq event_type "pull_request"
    then (if str_mem (or_else payload.action "") ("opened" ∷ "synchronize" ∷ "reopened" ∷ [])
        then parse_pull_request_event payload ∷ []
        else [])
    else if str_mem event_type ("installation" ∷ "installation_repositories" ∷ [])
    then parse_installation_event payload
    else []
