-- ===== src/Identity.antt =====
-- The identity registry, agent/identity/registry.py: tokens, revocation, and the endpoints that a
-- scope contract admits.
pub mod Access
use zerra.Prelude.{
  String, Bool, true, false, not, ◌&&◌, ◌||◌, Option, none, some, List, [], ◌∷◌, if◌then◌else◌, any,
  is_empty,
}
use zerra.Prelude.Dict.{Dict, lookup, insert, values}
use zerra.Prelude.Results.{Result, ok, err, Error, key_error, ◌>>=◌}
use zerra.Platform.{Platform}
use zerra.Fnmatch.{fnmatchcase}
use zerra.Contracts.{IdentityType, Identity}

pub record Registry (F : Type 0) : Type 0 where
  pub identities : Dict (Identity F)
  pub tokens : Dict String

-- `identity.type in {IdentityType.HUMAN, IdentityType.SERVICE}`.
abbrev is_human_or_service : IdentityType → Bool
is_human_or_service IdentityType.human = true
is_human_or_service IdentityType.service = true
is_human_or_service _ = false

module _ (p : Platform) where
  open p use {Float, lit}

  abbrev demo_identity : String → IdentityType → Float → List String → String → Identity Float
  demo_identity id type auth_strength scope_contract display_name = record {
    id = id;
    type = type;
    tenant_id = "tenant-a";
    auth_strength = auth_strength;
    scope_contract = scope_contract;
    trust_score = lit 10_000;
    is_revoked = false;
    display_name = some display_name;
  }

  -- `IdentityRegistry.__init__`.
  unfoldable pub init : Registry Float
  init = record {
    identities =
        ("human-alice", demo_identity "human-alice" IdentityType.human (lit 95) [] "Alice")
        ∷ (
          "billing-service",
          demo_identity "billing-service" IdentityType.service (lit 90) [] "Billing Service",
        )
        ∷ (
          "finance-agent",
          demo_identity "finance-agent" IdentityType.agent (lit 92) ("/invoices/*" ∷ [])
              "Finance Agent",
        )
        ∷ (
          "attacker-agent",
          demo_identity "attacker-agent" IdentityType.agent (lit 80) ("/invoices/*" ∷ [])
              "Attacker Agent",
        )
        ∷ [];
    tokens =
        ("demo-human-token", "human-alice")
        ∷ ("demo-billing-token", "billing-service")
        ∷ ("demo-finance-agent-token", "finance-agent")
        ∷ ("demo-attacker-token", "attacker-agent")
        ∷ [];
  }

module _ {F : Type 0} where
  unfoldable pub get : Registry F → String → Option (Identity F)
  get r identity_id = lookup identity_id r.identities

  -- `identity if identity and not identity.is_revoked else None`.
  unless_revoked : Option (Identity F) → Option (Identity F)
  unless_revoked none = none
  unless_revoked (some identity) = if not identity.is_revoked then some identity else none

  identity_of_token : Registry F → Option String → Option (Identity F)
  identity_of_token r none = none
  identity_of_token r (some identity_id) =
      if not (is_empty identity_id) then lookup identity_id r.identities else none

  pub authenticate_token : Registry F → String → Option (Identity F)
  unfolding unless_revoked identity_of_token
  authenticate_token r token = unless_revoked (identity_of_token r (lookup token r.tokens))

  list_identities : Registry F → List (Identity F)
  list_identities r = values r.identities

  require_known : Registry F → String → Result (Identity F)
  unfolding get
  require_known r identity_id = elim (get r identity_id) [
    | none ↦ err (key_error identity_id)
    | some identity ↦ ok identity
  ]

  -- Both write the copy back under the name that was asked for.
  set_revoked : Bool → Registry F → String → Result (Registry F × Identity F)
  unfolding require_known
  set_revoked flag r identity_id = do
    identity ← require_known r identity_id
    let updated = record identity { is_revoked = flag }
    ok (record r { identities = insert identity_id updated r.identities }, updated)

  pub revoke : Registry F → String → Result (Registry F × Identity F)
  unfolding set_revoked
  revoke = set_revoked true

  pub restore : Registry F → String → Result (Registry F × Identity F)
  unfolding set_revoked
  restore = set_revoked false

  is_endpoint_allowed : Identity F → String → Bool
  is_endpoint_allowed identity endpoint =
      if identity.is_revoked then false else elim identity.scope_contract [
        | [] ↦ is_human_or_service identity.type
        | x ∷ xs ↦ any (fnmatchcase endpoint) (x ∷ xs)
      ]
