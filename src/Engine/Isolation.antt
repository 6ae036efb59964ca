-- ===== src/Engine/Isolation.antt =====
-- What ZerraEngine.evaluate writes to the stores.
use zerra.Prelude.{ℕ, ◌≡◌, refl, ◌≢◌, String, some, []}
use zerra.Prelude.Dict.{lookup, get_or, lookup-insert_ne}
use zerra.Platform.{Platform}
use zerra.Contracts.{CallEvent, Identity}
use zerra.Identity
use zerra.Graph.{record_call}
use zerra.Sequence
use zerra.Sequence.Windows.{window_of, add_others}
use zerra.Trust.{process}
use zerra.Engine.Decision.{evaluate_event-known}
use zerra.Engine.{ZerraEngine, enrich, sequence_event, evaluate_known, evaluate_event}

module _ (p : Platform) where
  open p use {Float}

  module _ (engine : ZerraEngine Float) (event : CallEvent) (now : ℕ) (latency : Float)
      (identity : Identity Float) where
    -- An event of a registered identity, stored under its own identifier, changes neither the graph
    -- history nor the sequence window nor the latest trust score of another, and neither the
    -- registry nor the policies.
    pub evaluate_event_others :
        (other : String)
        → Identity.get engine.registry event.identity_id ≡ some identity
        → identity.id ≡ event.identity_id
        → event.identity_id ≢ other
        → let engine' = (evaluate_event p engine event now latency).0 in
          (get_or other [] engine'.graph_store ≡ get_or other [] engine.graph_store)
          × (window_of engine'.scorer.windows other ≡ window_of engine.scorer.windows other)
          × (lookup other engine'.trust_store ≡ lookup other engine.trust_store)
          × (engine'.registry ≡ engine.registry)
          × (engine'.policies ≡ engine.policies)
    unfolding evaluate_known Sequence.score record_call enrich sequence_event process
    evaluate_event_others other known named ne =
        rw (evaluate_event-known p engine event now latency identity known) (
          rw (lookup-insert_ne event.identity_id other _ engine.graph_store ne) refl,
          add_others engine.scorer.windows (sequence_event (enrich p event identity)) other ne,
          lookup-insert_ne identity.id other _ engine.trust_store (rw named ne),
          refl,
          refl,
        )
