-- ===== src/Engine/Hard.antt =====
-- ZerraEngine.evaluate for revoked identities, agents outside their contract and calls across the
-- tenant border.
use zerra.Prelude.{ℕ, ◌≡◌, true, some, arith}
use zerra.Prelude.Results.{ok}
use zerra.Platform.{Platform}
use zerra.Contracts.{CallEvent, Verdict, Identity, DecisionResponse, is_cross_tenant}
use zerra.Identity
use zerra.Policy.Hard.{
  has_rule, is_out_of_scope, has_blocking_tenant_rule, revoked_blocks, out_of_scope_blocks,
  cross_tenant_blocks,
}
use zerra.Engine.{ZerraEngine, verdict_of, enrich, evaluate_event}
use zerra.Engine.Decision.{decided, trust_of, graph_of}

module _ (p : Platform) where
  open p use {Float}

  module _ (engine : ZerraEngine Float) (event : CallEvent) (now : ℕ) (latency : Float)
      (identity : Identity Float) where
    -- A revoked identity is blocked, whatever the event, the scores and the other policies are, while
    -- an active revocation rule is among them.
    pub revoked-blocked :
        {d : DecisionResponse Float}
        → Identity.get engine.registry event.identity_id ≡ some identity
        → identity.is_revoked ≡ true
        → has_rule "identity_revoked" engine.policies ≡ true
        → (evaluate_event p engine event now latency).1 ≡ ok d
        → d.verdict ≡ Verdict.block
    unfolding verdict_of
    revoked-blocked known revoked rule e =
        let (es, evaluated, _, verdict) = decided p engine event now latency identity known e in
        ground (
          arith,
          revoked_blocks p (enrich p event identity) identity
              (trust_of p engine event now latency identity).trust_score
              (some (graph_of p engine event now latency identity)) now engine.policies revoked rule
              evaluated,
        )

    -- An agent or MCP server that calls an endpoint outside its scope contract is blocked, while an
    -- active scope rule is among the policies.
    pub out_of_scope-blocked :
        {d : DecisionResponse Float}
        → Identity.get engine.registry event.identity_id ≡ some identity
        → is_out_of_scope identity event.endpoint ≡ true
        → has_rule "agent_scope_contract" engine.policies ≡ true
        → (evaluate_event p engine event now latency).1 ≡ ok d
        → d.verdict ≡ Verdict.block
    unfolding verdict_of enrich
    out_of_scope-blocked known outside rule e =
        let (es, evaluated, _, verdict) = decided p engine event now latency identity known e in
        ground (
          arith,
          out_of_scope_blocks p (enrich p event identity) identity
              (trust_of p engine event now latency identity).trust_score
              (some (graph_of p engine event now latency identity)) now engine.policies outside rule
              evaluated,
        )

    -- A call of a known identity to another tenant's data is blocked, while an active tenant rule with
    -- the action to block is among the policies.
    pub cross_tenant-blocked :
        {d : DecisionResponse Float}
        → Identity.get engine.registry event.identity_id ≡ some identity
        → is_cross_tenant event.tenant_id (some identity.tenant_id) ≡ true
        → has_blocking_tenant_rule engine.policies ≡ true
        → (evaluate_event p engine event now latency).1 ≡ ok d
        → d.verdict ≡ Verdict.block
    unfolding verdict_of enrich
    cross_tenant-blocked known crossing rule e =
        let (es, evaluated, _, verdict) = decided p engine event now latency identity known e in
        ground (
          arith,
          cross_tenant_blocks p (enrich p event identity) identity
              (trust_of p engine event now latency identity).trust_score
              (some (graph_of p engine event now latency identity)) now engine.policies crossing
              rule evaluated,
        )
