-- ===== src/PolicyModels.antt =====
-- The results of policies, agent/policy/models.py.
use zerra.Prelude.{ℕ, String, Bool, true, false, Option, List}
use zerra.Prelude.Dict.{Dict}

pub data PolicyAction : Type 0 where
  allow step_up block : PolicyAction

-- A value of an evaluation's evidence.
pub data Evidence (F : Type 0) : Type 0 where
  number : F → Evidence F
  whole : ℕ → Evidence F
  text : String → Evidence F
  optional : Option String → Evidence F

pub record PolicyEvaluation (F : Type 0) : Type 0 where
  pub policy_id : String
  pub policy_name : String
  pub matched : Bool
  pub action : PolicyAction
  pub reason : String
  pub evidence : Dict (Evidence F)
  pub evaluated_at : ℕ

abbrev pub is_block : PolicyAction → Bool
is_block PolicyAction.block = true
is_block _ = false

abbrev pub is_step_up : PolicyAction → Bool
is_step_up PolicyAction.step_up = true
is_step_up _ = false

pub record PolicySimulationResult (F : Type 0) : Type 0 where
  pub policy_id : String
  pub total_events : ℕ
  pub matched_events : ℕ
  pub would_allow : ℕ
  pub would_step_up : ℕ
  pub would_block : ℕ
  pub found : List (PolicyEvaluation F)
  pub summary : String
