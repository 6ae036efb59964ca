-- ===== src/Graph.antt =====
-- The in-memory intent graph that the engine uses, agent/graph/store.py: the calls of each
-- identity, and the risk of a call against the last ten of them.
pub mod Risk
use zerra.Prelude.{
  ℕ, String, Bool, List, [], ◌∷◌, ◌++◌, map, if◌then◌else◌, length, take_last, ◌+++◌, show,
  text_set,
}
use zerra.Prelude.Dict.{Dict, insert, get_or}
use zerra.Platform.{Platform, of_ℕ, max, min}
use zerra.Contracts.{CallEvent, is_cross_tenant}

-- One dict of a result's `factors`.
pub data GraphFactor : Type 0 where
  fan_out : ℕ → GraphFactor
  cross_tenant : Bool → GraphFactor

pub record GraphScoreResult (F : Type 0) : Type 0 where
  pub graph_risk_score : F
  pub evidence : String
  pub factors : List GraphFactor

-- `IntentGraphStore._events`.
abbrev pub IntentGraphStore : Type 0
IntentGraphStore = Dict (List CallEvent)

-- The distinct objects of the last ten calls of the identity and of the pending one.
unfoldable pub object_fan_out : IntentGraphStore → CallEvent → ℕ
object_fan_out store event =
    let prior = take_last 10 (get_or event.identity_id [] store) in
    length (text_set (map (λ (e : CallEvent). e.object_id) prior ++ event.object_id ∷ []))

unfoldable pub score : (p : Platform) → IntentGraphStore → CallEvent → GraphScoreResult p.Float
score p store event =
    let n = object_fan_out store event in
    let crossing = is_cross_tenant event.tenant_id event.home_tenant_id in
    record {
      graph_risk_score =
          if crossing
          then p.lit 90
          else min p (p.lit 80) (max p (p.lit 0) (p.mul (p.sub (of_ℕ p n) (of_ℕ p 4)) (p.lit 12)));
      evidence =
          if crossing
          then "cross-tenant target access"
          else show n +++ " distinct objects in recent identity graph";
      factors = fan_out n ∷ cross_tenant crossing ∷ [];
    }

-- `self._events.setdefault(event.identity_id, []).append(event)`.
unfoldable pub record_call : IntentGraphStore → CallEvent → IntentGraphStore
record_call store event =
    insert event.identity_id (get_or event.identity_id [] store ++ event ∷ []) store
