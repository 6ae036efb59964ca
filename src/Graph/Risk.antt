-- ===== src/Graph/Risk.antt =====
-- The risk of agent/graph/store.py: its range, its high values, and the calls of other identities.
use zerra.Prelude.{
  ◌≤◌, ◌≡◌, refl, ◌≢◌, String, not, Option, none, some, List, [], ◌∷◌, ◌++◌, map, arith, length,
  length-append, length-take_last-le, take_last, text_set, Bool-cases, inl, inr,
}
use zerra.Prelude.Dict.{get_or, lookup-insert_ne}
use zerra.Platform.{
  Platform, of_ℕ, AtMost, AtMost-lit, AtMost-trans, lt_of_le_lt, clamp_bounds_min, AtMost-refl,
}
use zerra.Contracts.{CallEvent, is_cross_tenant}
use zerra.Graph.{IntentGraphStore, object_fan_out, score, record_call}

length-text_set-le : (xs : List (Option String)) → length (text_set xs) ≤ length xs
length-text_set-le [] = omega arith
length-text_set-le (none ∷ xs) = omega (arith, length-text_set-le xs)
length-text_set-le (some s ∷ xs) = ground (arith, length-text_set-le xs)

length-map_objects :
    (es : List CallEvent) → length (map (λ (e : CallEvent). e.object_id) es) ≡ length es
length-map_objects [] = refl
length-map_objects (e ∷ es) = omega (arith, length-map_objects es)

-- No call is seen with more than eleven distinct objects: the ten last calls and its own.
object_fan_out-le : (store : IntentGraphStore) (event : CallEvent) → object_fan_out store event ≤ 11
unfolding object_fan_out
object_fan_out-le store event =
    let prior = take_last 10 (get_or event.identity_id [] store) in
    let ids = map (λ (e : CallEvent). e.object_id) prior in
    omega (
      arith,
      length-text_set-le (ids ++ event.object_id ∷ []),
      length-append {0} ids (event.object_id ∷ []),
      length-map_objects prior,
      length-take_last-le 10 (get_or event.identity_id [] store),
    )

-- Calls of one identity do not change the score of another.
pub score-record_call :
    (p : Platform) (store : IntentGraphStore) (other event : CallEvent)
    → other.identity_id ≢ event.identity_id
    → score p (record_call store other) event ≡ score p store event
unfolding score object_fan_out record_call
score-record_call p store other event ne =
    rw (lookup-insert_ne other.identity_id event.identity_id _ store ne)

module _ (p : Platform) where
  open p use {Float, lit, lt}

  abbrev fan_risk : IntentGraphStore → CallEvent → Float
  fan_risk store event = p.mul (p.sub (of_ℕ p (object_fan_out store event)) (of_ℕ p 4)) (lit 12)

  -- The risk lies between 0 and 0.9.
  pub score_bounds :
      (store : IntentGraphStore) (event : CallEvent)
      → AtMost p (lit 0) (score p store event).graph_risk_score
        × AtMost p (score p store event).graph_risk_score (lit 90)
  unfolding score
  score_bounds store event =
      elim (Bool-cases (is_cross_tenant event.tenant_id event.home_tenant_id)) [
        | inl crossing ↦ rw crossing (AtMost-lit p 0 90 (omega arith), AtMost-refl p (lit 90))
        | inr inside ↦
            let (low, high) = clamp_bounds_min p 0 80 (fan_risk store event) (omega arith) in
            rw inside (low, AtMost-trans p _ _ _ high (AtMost-lit p 80 90 (omega arith)))
      ]

  -- The risk reaches the blocking line of 0.85 exactly for a call across the tenant border: many
  -- objects alone never reach it.
  pub score_high :
      (store : IntentGraphStore) (event : CallEvent)
      → lt (score p store event).graph_risk_score (lit 85)
        ≡ not (is_cross_tenant event.tenant_id event.home_tenant_id)
  unfolding score
  score_high store event =
      elim (Bool-cases (is_cross_tenant event.tenant_id event.home_tenant_id)) [
        | inl crossing ↦ rw crossing (p.lt-lit 90 85)
        | inr inside ↦
            let (_, high) = clamp_bounds_min p 0 80 (fan_risk store event) (omega arith) in
            rw inside (lt_of_le_lt p _ _ _ high (p.lt-lit 80 85))
      ]
