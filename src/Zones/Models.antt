-- ===== src/Zones/Models.antt =====
-- The data of the trust zones, agent/trust/models.py and inputs.py.
use zerra.Prelude.{ℕ, String, Bool, List}
use zerra.Prelude.Dict.{Dict}

pub data TrustZone : Type 0 where
  green yellow red : TrustZone

pub data Verdict : Type 0 where
  allow step_up block : Verdict

pub record FactorBreakdown (F : Type 0) : Type 0 where
  pub name : String
  pub raw_value : F
  pub weight : F
  pub contribution : F
  pub source_module : String

pub record ScoreState (F : Type 0) : Type 0 where
  pub identity_id : String
  pub trust_score : F
  pub previous_score : F
  pub zone : TrustZone
  pub consecutive_zone_calls : ℕ
  pub last_updated : ℕ
  pub ewma_state : F
  pub call_count : ℕ

pub record TrustScoreInputs (F : Type 0) : Type 0 where
  pub identity_id : String
  pub call_id : String
  pub auth_strength : F
  pub graph_risk_score : F
  pub sequence_risk_score : F
  pub sensitive_fields_touched : List String

pub record TrustScoreResult (F : Type 0) : Type 0 where
  pub identity_id : String
  pub call_id : String
  pub trust_score : F
  pub zone : TrustZone
  pub verdict : Verdict
  pub zone_changed : Bool
  pub factors : List (FactorBreakdown F)
  pub evidence : String
  pub timestamp : ℕ

-- `TrustScoreStore._states`.
abbrev pub TrustScoreStore : Type 0 → Type 0
TrustScoreStore F = Dict (ScoreState F)
