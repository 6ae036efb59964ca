-- ===== src/Trust/Verdicts.antt =====
-- The score and the verdict of agent/trust/store.py.
use zerra.Prelude.{ℕ, ◌≤◌, ◌≡◌, ◌↔◌, true, false, ◌&&◌, arith, some}
use zerra.Prelude.Dict.{lookup, lookup-insert_self}
use zerra.Platform.{Platform, max, AtMost, clamp_bounds, lt-max, lt_trans, lt_of_le_lt}
use zerra.Trust.{
  TrustVerdict, TrustScoreInputs, TrustScoreStore, verdict_of_risk, trust_of, process,
}

abbrev pub strictness : TrustVerdict → ℕ
strictness TrustVerdict.allow = 0
strictness TrustVerdict.step_up = 1
strictness TrustVerdict.block = 2

module _ (p : Platform) where
  open p use {Float, lit, lt}

  -- More risk never softens the verdict.
  pub verdict_of_risk_mono :
      (r s : Float)
      → AtMost p r s
      → strictness (verdict_of_risk p r) ≤ strictness (verdict_of_risk p s)
  unfolding verdict_of_risk
  verdict_of_risk_mono r s h =
      ground (arith, lt_of_le_lt p r s (lit 85) h, lt_of_le_lt p r s (lit 50) h)

  -- The trust store recommends to block exactly if one of the two risks is at least 0.85, and to
  -- allow exactly if both are below 0.5; its recommendation reads neither the authentication nor
  -- the fields that the call touches.
  pub process_verdict :
      (store : TrustScoreStore Float) (inputs : TrustScoreInputs Float)
      → ((process p store inputs).1.verdict ≡ TrustVerdict.block
          ↔ (lt inputs.graph_risk_score (lit 85) && lt inputs.sequence_risk_score (lit 85)) ≡ false)
        × ((process p store inputs).1.verdict ≡ TrustVerdict.allow
            ↔ (lt inputs.graph_risk_score (lit 50) && lt inputs.sequence_risk_score (lit 50))
              ≡ true)
  unfolding process verdict_of_risk
  process_verdict store inputs =
      let g = inputs.graph_risk_score in
      let s = inputs.sequence_risk_score in
      let below : lt (lit 50) (lit 85) ≡ true = p.lt-lit 50 85 in
      ground (
        arith,
        lt-max p g s (lit 85),
        lt-max p g s (lit 50),
        lt_trans p (max p g s) (lit 50) (lit 85),
        below,
      )

  -- The score lies between 0 and 100, and it is what the store keeps of the identity.
  pub process_score :
      (store : TrustScoreStore Float) (inputs : TrustScoreInputs Float)
      → let (store', result) = process p store inputs in
        AtMost p (lit 0) result.trust_score
        × AtMost p result.trust_score (lit 10_000)
        × (lookup inputs.identity_id store' ≡ some result.trust_score)
  unfolding process trust_of
  process_score store inputs =
      let (low, high) = clamp_bounds p 0 10_000 _ (omega arith) in
      (low, high, lookup-insert_self inputs.identity_id _ store)
