-- ===== src/Trust.antt =====
-- The trust calculation that the engine uses, agent/trust/store.py.
pub mod Verdicts
use zerra.Prelude.{String, List, if◌then◌else◌, length, ◌+++◌}
use zerra.Prelude.Dict.{Dict, insert}
use zerra.Platform.{Platform, of_ℕ, max, min}
use zerra.Contracts.{Verdict}

pub data TrustVerdict : Type 0 where
  allow step_up block : TrustVerdict

-- `Verdict(verdict.value)`.
abbrev pub to_verdict : TrustVerdict → Verdict
to_verdict TrustVerdict.allow = Verdict.allow
to_verdict TrustVerdict.step_up = Verdict.step_up
to_verdict TrustVerdict.block = Verdict.block

pub record TrustScoreInputs (F : Type 0) : Type 0 where
  pub identity_id : String
  pub call_id : String
  pub auth_strength : F
  pub graph_risk_score : F
  pub sequence_risk_score : F
  pub sensitive_fields_touched : List String

pub record TrustScoreResult (F : Type 0) : Type 0 where
  pub trust_score : F
  pub verdict : TrustVerdict
  pub evidence : String

-- `TrustScoreStore._latest_scores`.
abbrev pub TrustScoreStore : Type 0 → Type 0
TrustScoreStore F = Dict F

module _ (p : Platform) where
  open p use {Float, lit, sub, mul, lt, format2}

  -- `BLOCK if risk >= .85 else STEP_UP if risk >= .5 else ALLOW`.
  unfoldable pub verdict_of_risk : Float → TrustVerdict
  verdict_of_risk risk =
      if lt risk (lit 85)
      then (if lt risk (lit 50) then TrustVerdict.allow else TrustVerdict.step_up)
      else TrustVerdict.block

  unfoldable pub trust_of : TrustScoreInputs Float → Float
  trust_of inputs =
      let sensitive_penalty =
        min p (lit 15) (mul (lit 5) (of_ℕ p (length inputs.sensitive_fields_touched))) in
      let risk = max p inputs.graph_risk_score inputs.sequence_risk_score in
      max p (lit 0) (
        min p (lit 10_000) (
          sub
            (sub (mul (lit 10_000) (sub (lit 100) risk))
              (mul (sub (lit 100) inputs.auth_strength) (lit 1500)))
            (mul sensitive_penalty (lit 10_000))))

  unfoldable pub process :
      TrustScoreStore Float
      → TrustScoreInputs Float
      → TrustScoreStore Float × TrustScoreResult Float
  process store inputs =
      let risk = max p inputs.graph_risk_score inputs.sequence_risk_score in
      let result : TrustScoreResult Float = record {
        trust_score = trust_of inputs;
        verdict = verdict_of_risk risk;
        evidence =
            "max risk " +++ format2 risk +++ "; auth strength " +++ format2 inputs.auth_strength;
      } in
      (insert inputs.identity_id (trust_of inputs) store, result)
