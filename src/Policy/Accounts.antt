-- ===== src/Policy/Accounts.antt =====
-- `PolicyEngine.simulate`, agent/policy/engine.py: what its result says of the history.
use mathlib.Core.Path.{subst}
use zerra.Prelude.{
  Option-cases, inl, inr, refl, sym, ◌∙◌, ap, Bool, true, false, ℕ, suc, ◌+◌, ◌≤◌, ◌≡◌, none, some,
  List, [], ◌∷◌, ◌++◌, arith, count_if, filter, filter-front, count_if-append, append-nil,
  append_assoc, length, length-append,
}
use zerra.Prelude.Dict.{Dict, lookup}
use zerra.Prelude.Results.{Result, ok, ◌>>=◌, >>=-eq-ok, ok-injective}
use zerra.Platform.{Platform}
use zerra.PolicyModels.{
  PolicyAction, PolicyEvaluation, PolicySimulationResult, is_step_up, is_block,
}
use zerra.Contracts.{CallEvent, Identity, Policy}
use zerra.Policy.Simulation.{
  Tally, start, simulated_evaluation, noted, tally_evaluation, simulate_event, simulate_from,
  result_of, simulate,
}

abbrev pub is_match : {F : Type 0} → PolicyEvaluation F → Bool
is_match e = e.matched

module _ (p : Platform) where
  open p use {Float, lit}

  -- The loop's books: the counts add up to the rounds, and a call that would be stopped is a match.
  record Balances (rounds : ℕ) (t : Tally Float) : Type 0 where
    total : t.allow + t.step_up + t.block ≡ rounds
    stepped : t.step_up ≡ count_if (λ (e : PolicyEvaluation Float). is_step_up e.action) t.found
    blocked : t.block ≡ count_if (λ (e : PolicyEvaluation Float). is_block e.action) t.found
    matched : length t.found ≤ rounds

  tally-Balances :
      (rounds : ℕ) (t : Tally Float) (e : PolicyEvaluation Float)
      → Balances rounds t
      → Balances (rounds + 1) (tally_evaluation p t e)
  unfolding tally_evaluation
  tally-Balances rounds t e b = ground (
    arith,
    length-append {0} t.found (e ∷ []),
    count_if-append (λ (e : PolicyEvaluation Float). is_step_up e.action) t.found e,
    count_if-append (λ (e : PolicyEvaluation Float). is_block e.action) t.found e,
  )

  simulate_event-Balances :
      (policy : Policy Float) (identities : Dict (Identity Float)) (now rounds : ℕ)
      (t : Tally Float) (event : CallEvent) {t' : Tally Float}
      → Balances rounds t
      → simulate_event p policy identities now t event ≡ ok t'
      → Balances (rounds + 1) t'
  unfolding simulate_event
  simulate_event-Balances policy identities now rounds t event {t'} b h =
      elim (Option-cases (lookup event.identity_id identities)) [
        | inl unknown ↦ ground arith
        | inr (identity, known) ↦
            let t₀ = record t { history = noted p policy t.history event } in
            let (e, _, eq) =
              >>=-eq-ok (simulated_evaluation p policy now t.history event identity)
                (λ e. ok (tally_evaluation p t₀ e)) (rw (known, simulate_event) at h) in
            subst (Balances (rounds + 1)) (ok-injective eq) (
              tally-Balances rounds t₀ e (record {
                total = b.total;
                stepped = b.stepped;
                blocked = b.blocked;
                matched = b.matched;
              }))
      ]

  simulate_from-Balances :
      (policy : Policy Float) (identities : Dict (Identity Float)) (now rounds : ℕ)
      (t : Tally Float) (events : List CallEvent) {t' : Tally Float}
      → Balances rounds t
      → simulate_from p policy identities now t events ≡ ok t'
      → Balances (rounds + length events) t'
  unfolding simulate_from
  simulate_from-Balances policy identities now rounds t [] b h =
      let none_left : rounds + 0 ≡ rounds = omega arith in
      rw none_left (subst (Balances rounds) (ok-injective h) b)
  simulate_from-Balances policy identities now rounds t (event ∷ events) b h =
      let (t₁, eq, rest) =
        >>=-eq-ok (simulate_event p policy identities now t event)
          (λ t'. simulate_from p policy identities now t' events) h in
      let more : rounds + suc (length events) ≡ rounds + 1 + length events = omega arith in
      rw more (
        simulate_from-Balances policy identities now (rounds + 1) t₁ events
          (simulate_event-Balances policy identities now rounds t event b eq) rest)

  -- The evaluations of the calls of known identities, in order.
  abbrev pub evaluations :
      Policy Float
      → Dict (Identity Float)
      → ℕ
      → Dict (List CallEvent)
      → List CallEvent
      → Result (List (PolicyEvaluation Float))
  evaluations policy identities now history [] = ok []
  evaluations policy identities now history (event ∷ events) =
      elim (lookup event.identity_id identities) [
        | none ↦ evaluations policy identities now history events
        | some identity ↦ simulated_evaluation p policy now history event identity >>= λ e.
            evaluations policy identities now (noted p policy history event) events >>= λ es.
            ok (e ∷ es)
      ]

  tally-found :
      (t : Tally Float) (e : PolicyEvaluation Float)
      → (tally_evaluation p t e).found ≡ t.found ++ filter is_match (e ∷ [])
  unfolding tally_evaluation
  tally-found t e = go e.matched e.action
    where
      go :
          (matched : Bool) (action : PolicyAction)
          → let e' = record e { matched = matched; action = action } in
            (tally_evaluation p t e').found ≡ t.found ++ filter is_match (e' ∷ [])
      go false action = sym (append-nil t.found)
      go true PolicyAction.allow = refl
      go true PolicyAction.step_up = refl
      go true PolicyAction.block = refl

  tally-history :
      (t : Tally Float) (e : PolicyEvaluation Float) → (tally_evaluation p t e).history ≡ t.history
  unfolding tally_evaluation
  tally-history t e = go e.matched e.action
    where
      go :
          (matched : Bool) (action : PolicyAction)
          → (tally_evaluation p t (record e { matched = matched; action = action })).history
            ≡ t.history
      go false action = refl
      go true PolicyAction.allow = refl
      go true PolicyAction.step_up = refl
      go true PolicyAction.block = refl

  module _ (policy : Policy Float) (identities : Dict (Identity Float)) (now : ℕ) (t : Tally Float)
      (event : CallEvent) (events : List CallEvent) where
    -- The evaluations of the later calls, and then those from this call on.
    Continues : Tally Float → Type 0
    Continues t₁ =
        (es : List (PolicyEvaluation Float))
        → evaluations policy identities now t₁.history events ≡ ok es
        → (es' : List (PolicyEvaluation Float)) × (evaluations policy identities now t.history
              (event ∷ events)
            ≡ ok es')
          × (t₁.found ++ filter is_match es ≡ t.found ++ filter is_match es')

    simulate_event-Continues :
        {t₁ : Tally Float} → simulate_event p policy identities now t event ≡ ok t₁ → Continues t₁
    unfolding simulate_event Continues
    simulate_event-Continues {t₁} h = elim (Option-cases (lookup event.identity_id identities)) [
      | inl unknown ↦
          subst Continues (ok-injective (rw (unknown, simulate_event) at h))
            (λ es evaluated. (es, rw (unknown, evaluations) evaluated, refl))
      | inr (identity, known) ↦
          let t₀ = record t { history = noted p policy t.history event } in
          let (e, one, eq) =
            >>=-eq-ok (simulated_evaluation p policy now t.history event identity)
              (λ e. ok (tally_evaluation p t₀ e)) (rw (known, simulate_event) at h) in
          subst Continues (ok-injective eq) (λ es evaluated. (
            e ∷ es,
            rw (known, evaluations, one) (rw (rw (tally-history t₀ e) at evaluated) refl),
            ap (λ (found : List (PolicyEvaluation Float)). found ++ filter is_match es)
                  (tally-found t₀ e)
                ∙ append_assoc t.found (filter is_match (e ∷ [])) (filter is_match es)
                ∙ ap (λ (found : List (PolicyEvaluation Float)). t.found ++ found)
                    (filter-front is_match e es),
          ))
    ]

  simulate_from-found :
      (policy : Policy Float) (identities : Dict (Identity Float)) (now : ℕ) (t : Tally Float)
      (events : List CallEvent) {t' : Tally Float}
      → simulate_from p policy identities now t events ≡ ok t'
      → (es : List (PolicyEvaluation Float)) × (evaluations policy identities now t.history events
          ≡ ok es)
        × (t'.found ≡ t.found ++ filter is_match es)
  unfolding simulate_from Continues
  simulate_from-found policy identities now t [] {t'} h = (
    [],
    refl,
    sym (
        subst (λ (u : Tally Float). t.found ++ [] ≡ u.found) (ok-injective h) (append-nil t.found)),
  )
  simulate_from-found policy identities now t (event ∷ events) {t'} h =
      let (t₁, eq, rest) =
        >>=-eq-ok (simulate_event p policy identities now t event)
          (λ t'. simulate_from p policy identities now t' events) h in
      let (es, evaluated, found) = simulate_from-found policy identities now t₁ events rest in
      let (es', from_here, same) =
        simulate_event-Continues policy identities now t event events eq es evaluated in
      (es', from_here, found ∙ same)

  -- A simulation that raises nothing accounts for every event. Its matches are those of the
  -- policy's evaluations that matched, in order, one for every call of a known identity; the calls
  -- that would be stepped up or blocked are the matches with that action, and all the others would
  -- be allowed.
  pub simulate_accounts :
      (events : List CallEvent) (policy : Policy Float) (identities : Dict (Identity Float))
      (now : ℕ) {r : PolicySimulationResult Float}
      → simulate p events policy identities now ≡ ok r
      → (es : List (PolicyEvaluation Float)) × (evaluations policy identities now [] events ≡ ok es)
        × (r.found ≡ filter is_match es)
        × (r.total_events ≡ length events)
        × (r.would_allow + r.would_step_up + r.would_block ≡ r.total_events)
        × (r.would_step_up ≡ count_if (λ (e : PolicyEvaluation Float). is_step_up e.action) r.found)
        × (r.would_block ≡ count_if (λ (e : PolicyEvaluation Float). is_block e.action) r.found)
        × (r.matched_events ≡ length r.found)
        × (r.matched_events ≤ r.total_events)
  unfolding simulate result_of
  simulate_accounts events policy identities now {r} h =
      let (t, eq, shown) =
        >>=-eq-ok (simulate_from p policy identities now start events)
          (λ t. ok (result_of p policy events t)) h in
      let (es, evaluated, found) = simulate_from-found policy identities now start events eq in
      let b = simulate_from-Balances policy identities now 0 start events (omega arith) eq in
      let same = ok-injective shown in
      subst Accounts same (
        es,
        evaluated,
        found,
        refl,
        omega (arith, b.total),
        b.stepped,
        b.blocked,
        refl,
        omega (arith, b.matched),
      )
    where
      Accounts : PolicySimulationResult Float → Type 0
      Accounts r =
          (es : List (PolicyEvaluation Float)) × (evaluations policy identities now [] events
            ≡ ok es)
          × (r.found ≡ filter is_match es)
          × (r.total_events ≡ length events)
          × (r.would_allow + r.would_step_up + r.would_block ≡ r.total_events)
          × (r.would_step_up
              ≡ count_if (λ (e : PolicyEvaluation Float). is_step_up e.action) r.found)
          × (r.would_block ≡ count_if (λ (e : PolicyEvaluation Float). is_block e.action) r.found)
          × (r.matched_events ≡ length r.found)
          × (r.matched_events ≤ r.total_events)
