-- ===== src/Contracts.antt =====
-- The data contracts of agent/contracts/models.py: identities, call events, policies, risk cards
-- and decisions. Doubles are of a type `F`, the platform's. Timestamps are microseconds.
use zerra.Prelude.{some, ◌&&◌, not, str_eq, truthy, ℕ, String, Bool, true, false, Option, List}
use zerra.Prelude.Results.{Result}
use zerra.Prelude.Dict.{Dict}
use zerra.PolicyModels.{PolicyEvaluation}

pub data IdentityType : Type 0 where
  human service agent mcp_server : IdentityType

-- `IdentityType.value`.
abbrev pub identity_type_value : IdentityType → String
identity_type_value IdentityType.human = "human"
identity_type_value IdentityType.service = "service"
identity_type_value IdentityType.agent = "agent"
identity_type_value IdentityType.mcp_server = "mcp_server"

pub data Verdict : Type 0 where
  allow step_up block : Verdict

abbrev pub verdict_value : Verdict → String
verdict_value Verdict.allow = "allow"
verdict_value Verdict.step_up = "step_up"
verdict_value Verdict.block = "block"

-- `verdict is Verdict.ALLOW`.
abbrev pub is_allow : Verdict → Bool
is_allow Verdict.allow = true
is_allow _ = false

abbrev pub is_step_up : Verdict → Bool
is_step_up Verdict.step_up = true
is_step_up _ = false

abbrev pub is_block : Verdict → Bool
is_block Verdict.block = true
is_block _ = false

pub data TrustZone : Type 0 where
  green yellow red : TrustZone

pub data PolicyStatus : Type 0 where
  draft simulated active : PolicyStatus

pub record Identity (F : Type 0) : Type 0 where
  pub id : String
  pub type : IdentityType
  pub tenant_id : String
  pub auth_strength : F
  pub scope_contract : List String
  pub trust_score : F
  pub is_revoked : Bool
  pub display_name : Option String

pub record CallEvent : Type 0 where
  pub id : String
  pub identity_id : String
  pub identity_type : IdentityType
  pub timestamp : ℕ
  pub endpoint : String
  pub method : String
  pub object_id : Option String
  pub object_type : Option String
  pub tenant_id : Option String
  pub home_tenant_id : Option String
  pub status_code : ℕ
  pub response_fields : List String
  pub sensitive_fields_touched : List String
  pub scope_contract : Option (List String)
  pub metadata : Dict String

-- One dict of a risk card's factors, by its key.
pub data Factor (F : Type 0) : Type 0 where
  graph sequence_pattern trust : String → Factor F
  policy : PolicyEvaluation F → Factor F

pub record RiskCard (F : Type 0) : Type 0 where
  pub id : String
  pub identity_id : String
  pub call_ids : List String
  pub verdict : Verdict
  pub confidence : F
  pub graph_risk_score : F
  pub sequence_risk_score : F
  pub trust_score : F
  pub owasp_tag : String
  pub mitre_tag : String
  pub evidence : String
  pub timestamp : ℕ
  pub factors : List (Factor F)

-- The keys that the rules read out of `parameters`; `none` is a missing key. Of a number it is what
-- `float` or `int` of the value comes to, an exception included; of a text it is its `str`.
pub record Parameters (F : Type 0) : Type 0 where
  pub step_up_below : Option (Result F)
  pub block_below : Option (Result F)
  pub max_distinct_novel_objects : Option (Result ℕ)
  pub window_seconds : Option (Result ℕ)
  pub action : Option String
  pub target_pattern : Option String
  pub target_method : Option String
  -- `policy_condition`: whether it has a `get` or is false, and what it has of
  -- `require_tenant_match` and `check`.
  pub condition_has_get : Bool
  pub require_tenant_match : Bool
  pub check : Option String

pub record Policy (F : Type 0) : Type 0 where
  pub id : String
  pub name : String
  pub description : String
  pub rule_type : String
  pub parameters : Parameters F
  pub version : ℕ
  pub status : PolicyStatus

pub record DecisionResponse (F : Type 0) : Type 0 where
  pub call_id : String
  pub identity_id : String
  pub verdict : Verdict
  pub trust_score : F
  pub zone : TrustZone
  pub graph_risk_score : F
  pub sequence_risk_score : F
  pub allowed : Bool
  pub reason : String
  pub risk_card : Option (RiskCard F)
  pub timestamp : ℕ
  pub policy_ids_applied : List String

-- `a and b and a != b` on the tenants of an event and of an identity.
abbrev pub is_cross_tenant : Option String → Option String → Bool
is_cross_tenant (some target) (some home) =
    truthy (some target) && truthy (some home) && not (str_eq target home)
is_cross_tenant _ _ = false
