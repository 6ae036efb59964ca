-- ===== src/Zones/Hysteresis.antt =====
-- One call of agent/trust/score_store.py: the score, the streak and the zone.

use zerra.Prelude.{
  ℕ, ◌<◌, ◌+◌, ◌≤◌, ◌≡◌, ◌≢◌, refl, Bool, true, false, arith, Bool-cases, inl, inr, if◌then◌else◌,
  ltb,
}
use zerra.Platform.{
  Platform, AtMost, AtMost-lit, AtMost-trans, clamp_bounds, le_max_left, le_max_right, max-le,
  lt_trans,
}
use zerra.Zones.{
  TrustZone, ScoreState, is_recovering, updated, next_zone, step, update_ewma, apply_warm_up_floor,
  yellow_to_red, yellow_to_green, warm_up_calls,
}

-- How bad a zone is.
abbrev pub badness_of : TrustZone → ℕ
badness_of TrustZone.green = 0
badness_of TrustZone.yellow = 1
badness_of TrustZone.red = 2

abbrev pub is_red : TrustZone → Bool
is_red TrustZone.red = true
is_red _ = false

module _ (p : Platform) where
  open p use {Float, lit, mul, lt}

  -- A state between two calls.
  pub record IsValid (s : ScoreState Float) : Type 0 where
    pub score_low : AtMost p (lit 0) s.trust_score
    pub score_high : AtMost p s.trust_score (lit 10_000)
    pub ewma_low : AtMost p (lit 0) s.ewma_state
    pub ewma_high : AtMost p s.ewma_state (lit 100)
    pub short : s.consecutive_zone_calls ≤ 1
    pub streak : s.consecutive_zone_calls ≡ 1 → is_recovering p s.zone s.trust_score ≡ true
    pub warm : s.call_count ≤ warm_up_calls → is_red s.zone ≡ false

  -- One call moves the zone by one place at most, and `changed` tells whether it moved.
  pub next_zone_adjacent :
      (zone : TrustZone) (score : Float) (calls : ℕ)
      → let (zone', changed) = next_zone p zone score calls in
        (badness_of zone' ≤ badness_of zone + 1)
        × (badness_of zone ≤ badness_of zone' + 1)
        × (changed ≡ false → zone' ≡ zone)
        × (changed ≡ true → badness_of zone' ≢ badness_of zone)
  unfolding next_zone
  next_zone_adjacent TrustZone.green score calls = ground arith
  next_zone_adjacent TrustZone.yellow score calls = ground arith
  next_zone_adjacent TrustZone.red score calls = ground arith

  module _ (s : ScoreState Float) (badness : Float) where
    ewma_bounds :
        AtMost p (lit 0) (step p s badness).ewma_state
        × AtMost p (step p s badness).ewma_state (lit 100)
    unfolding step update_ewma
    ewma_bounds = clamp_bounds p 0 100 _ (omega arith)

    goodness_bounds :
        AtMost p (lit 0) (mul (step p s badness).ewma_state (lit 10_000))
        × AtMost p (mul (step p s badness).ewma_state (lit 10_000)) (lit 10_000)
    goodness_bounds =
        let (low, high) = ewma_bounds in
        (
          rw p.mul-zero at (p.ge-mul_lit _ _ 10_000 low),
          rw p.mul-one at (p.ge-mul_lit _ _ 10_000 high),
        )

    score_bounds :
        AtMost p (lit 0) (step p s badness).trust_score
        × AtMost p (step p s badness).trust_score (lit 10_000)
    unfolding step apply_warm_up_floor
    score_bounds =
        let (low, high) = goodness_bounds in
        elim (Bool-cases (ltb s.call_count warm_up_calls)) [
          | inl early ↦ rw early (
            AtMost-trans p _ _ _ low (le_max_left p _ _),
            max-le p _ _ _ high (AtMost-lit p 4000 10_000 (omega arith)),
          )
          | inr late ↦ rw late (low, high)
        ]

    -- The warm-up floor: no score of the first eight calls is below the line to the red zone.
    floor_lem :
        ltb s.call_count warm_up_calls ≡ true
        → AtMost p (yellow_to_red p) (step p s badness).trust_score
    unfolding step apply_warm_up_floor
    floor_lem early = rw early (le_max_right p _ _)

    step-call_count : (step p s badness).call_count ≡ s.call_count + 1
    unfolding step
    step-call_count = refl

  -- A recovery streak of two past the line leaves the zone, and it is the only way to a better one.
  next_zone-recovers :
      (zone : TrustZone) (score : Float) (calls : ℕ)
      → calls ≤ 2
      → let streak = if is_recovering p zone score then calls else 0 in
        let (zone', changed) = next_zone p zone score streak in
        ((if changed then 0 else streak) ≤ 1)
        × ((if changed then 0 else streak) ≡ 1 → is_recovering p zone' score ≡ true)
  unfolding next_zone
  next_zone-recovers TrustZone.green score calls h = ground arith
  next_zone-recovers TrustZone.yellow score calls h =
      ground (arith, lt_trans p (yellow_to_green p) score (yellow_to_red p), p.lt-lit 7800 4000)
  next_zone-recovers TrustZone.red score calls h = ground arith

  next_zone-better :
      (zone : TrustZone) (score : Float) (calls : ℕ)
      → let streak = if is_recovering p zone score then calls + 1 else 0 in
        let (zone', changed) = next_zone p zone score streak in
        badness_of zone' < badness_of zone
        → (is_recovering p zone score ≡ true) × (1 ≤ calls) × ((if changed then 0 else streak) ≡ 0)
  unfolding next_zone
  next_zone-better TrustZone.green score calls h = ground arith
  next_zone-better TrustZone.yellow score calls h = ground arith
  next_zone-better TrustZone.red score calls h = ground arith

  next_zone-not_red :
      (zone : TrustZone) (score : Float) (calls : ℕ)
      → is_red zone ≡ false
      → AtMost p (yellow_to_red p) score
      → is_red (next_zone p zone score calls).0 ≡ false
  unfolding next_zone
  next_zone-not_red TrustZone.green score calls h k = ground arith
  next_zone-not_red TrustZone.yellow score calls h k = ground arith
  next_zone-not_red TrustZone.red score calls h k = cc

  -- One call keeps the invariant.
  pub updated-IsValid :
      (s : ScoreState Float) (badness : Float) (now : ℕ)
      → IsValid s
      → IsValid (updated p s badness now).0
  unfolding updated
  updated-IsValid s badness now v =
      let score = (step p s badness).trust_score in
      let (score_low, score_high) = score_bounds s badness in
      let (ewma_low, ewma_high) = ewma_bounds s badness in
      let (short, streak) =
        next_zone-recovers s.zone score (s.consecutive_zone_calls + 1) (omega (arith, v.short)) in
      record {
        score_low = score_low;
        score_high = score_high;
        ewma_low = ewma_low;
        ewma_high = ewma_high;
        short = short;
        streak = streak;
        warm = λ early.
            let counted = step-call_count s badness in
            next_zone-not_red s.zone score _ (v.warm (omega arith))
              (floor_lem s badness (ground arith));
      }

  -- From a state that keeps the invariant, a zone is left for a better one only if the score of
  -- this call and that of the call before, in the same zone, are both past the line for recovery;
  -- the streak was one call then, and it starts anew.
  pub recovery_confirmed :
      (s : ScoreState Float) (badness : Float) (now : ℕ)
      → IsValid s
      → let s' = (updated p s badness now).0 in
        badness_of s'.zone < badness_of s.zone
        → (is_recovering p s.zone s.trust_score ≡ true)
          × (is_recovering p s.zone s'.trust_score ≡ true)
          × (s.consecutive_zone_calls ≡ 1)
          × (s'.consecutive_zone_calls ≡ 0)
  unfolding updated
  recovery_confirmed s badness now v better =
      let (recovering, twice, left) =
        next_zone-better s.zone (step p s badness).trust_score s.consecutive_zone_calls better in
      let once : s.consecutive_zone_calls ≡ 1 = omega (arith, v.short, twice) in
      (v.streak once, recovering, once, left)
