-- ===== src/MockData/Access.antt =====
-- Reading the protected records of agent/mock_data/store.py through the engine's decisions.
use zerra.Prelude.{
  ℕ, ◌≡◌, String, Bool, true, false, some, arith, sym, ◌∙◌, Option-cases, Bool-cases, inl, inr,
}
use zerra.Prelude.Results.{ok, err, Error, access_denied, ok-injective}
use zerra.Prelude.Dict.{lookup}
use zerra.Platform.{Platform}
use zerra.Contracts.{CallEvent, Verdict, is_allow, is_cross_tenant, Identity, DecisionResponse}
use zerra.Identity
use zerra.Policy.Hard.{has_rule, is_out_of_scope, has_blocking_tenant_rule}
use zerra.Engine.Decision.{evaluate_unknown}
use zerra.Engine.{ZerraEngine, evaluate_event}
use zerra.Engine.Hard.{revoked-blocked, out_of_scope-blocked, cross_tenant-blocked}
use zerra.MockData.{MockDataStore, Invoice, get_invoice, list_invoices_for_tenant}

abbrev refusal : Error
refusal = access_denied "Protected records require an allow decision"

false_of : {b : Bool} → (b ≡ true → ⊥) → b ≡ false
false_of {b} h = elim (Bool-cases b) [ inl t ↦ absurd (h t) | inr f ↦ f ]

module _ {F : Type 0} where
  -- A decision that does not allow opens no record.
  pub closed :
      (store : MockDataStore F) (d : DecisionResponse F) (invoice_id tenant_id : String)
      → is_allow d.verdict ≡ false
      → (get_invoice store invoice_id d ≡ err refusal)
        × (list_invoices_for_tenant store tenant_id d ≡ err refusal)
  unfolding get_invoice list_invoices_for_tenant
  closed store d invoice_id tenant_id h = ground arith

  -- What is read is what the store has.
  stored :
      (store : MockDataStore F) (invoice_id : String) (d : DecisionResponse F) {i : Invoice F}
      → get_invoice store invoice_id d ≡ ok i
      → lookup invoice_id store.invoices ≡ some i
  unfolding get_invoice
  stored store invoice_id d read = ground arith

module _ (p : Platform) (engine : ZerraEngine p.Float) (event : CallEvent) (now : ℕ)
    (latency : p.Float) (store : MockDataStore p.Float) (invoice_id : String) where
  -- A decision that blocks reads no invoice.
  blocked-reads_nothing :
      (d : DecisionResponse p.Float) {i : Invoice p.Float}
      → d.verdict ≡ Verdict.block
      → get_invoice store invoice_id d ≡ ok i
      → ⊥
  blocked-reads_nothing d blocked read =
      ground (arith, (closed store d invoice_id "" (ground arith)).0)

  -- An invoice is read through a decision of the engine only if it is the one that the store has
  -- under its number, and only for a registered identity that is not revoked, for an agent only
  -- inside its scope contract, and only on a call whose tenant_id, if it names one and the identity
  -- has one, is the identity's, as long as the three hard rules are among the active policies. The
  -- tenant of the invoice itself is not compared with anything.
  pub read_needs_access :
      {d : DecisionResponse p.Float} {i : Invoice p.Float}
      → has_rule "identity_revoked" engine.policies ≡ true
      → has_rule "agent_scope_contract" engine.policies ≡ true
      → has_blocking_tenant_rule engine.policies ≡ true
      → (evaluate_event p engine event now latency).1 ≡ ok d
      → get_invoice store invoice_id d ≡ ok i
      → (identity : Identity p.Float) × (Identity.get engine.registry event.identity_id
          ≡ some identity)
        × (identity.is_revoked ≡ false)
        × (is_out_of_scope identity event.endpoint ≡ false)
        × (is_cross_tenant event.tenant_id (some identity.tenant_id) ≡ false)
        × (lookup invoice_id store.invoices ≡ some i)
  read_needs_access {d} revocation scope tenants e read =
      elim (Option-cases (Identity.get engine.registry event.identity_id)) [
        | inl unknown ↦
            let (d', eq, _, blocked) = evaluate_unknown p engine event now latency unknown in
            let decision : (evaluate_event p engine event now latency).1 ≡ ok d' = rw eq in
            let same : d ≡ d' = ok-injective (sym e ∙ decision) in
            absurd (blocked-reads_nothing d (rw same blocked) read)
        | inr (identity, known) ↦ (
          identity,
          known,
          false_of (λ h.
              blocked-reads_nothing d
                (revoked-blocked p engine event now latency identity known h revocation e) read),
          false_of (λ h.
              blocked-reads_nothing d
                (out_of_scope-blocked p engine event now latency identity known h scope e) read),
          false_of (λ h.
              blocked-reads_nothing d
                (cross_tenant-blocked p engine event now latency identity known h tenants e) read),
          stored store invoice_id d read,
        )
      ]
