-- ===== src/Pentest/Streams.antt =====
-- A whole run of agent/pentest/orchestrator.py: its ledgers, its last event, and what a subscriber
-- gets.
use zerra.Prelude.{
  ◌≡◌, refl, ◌⊎◌, subst, String, true, false, List, [], ◌∷◌, ◌++◌, arith, All, str_eq, str_eq_iff,
  str_mem, ◌+++◌, Bool-cases, inl, inr,
}
use zerra.Prelude.Results.{Error, Result, err, ok, is_ok}
use zerra.Prelude.Effects.{continue, handle, Yields, Yields-raise, Yields->>=, Yields-chain, ◌>>◌}
use zerra.Pentest.{PentestEvent, PentestScanConfig, Target, Pentest, emit_event, target_base_url}
use zerra.Pentest.Skills.{get_skill}
use zerra.Pentest.Phases.{current, set_status, run_recon_phase}
use zerra.Pentest.Assessments.{test_agentic_mcp, test_skill, assess, run_assessment_phase}
use zerra.Pentest.Engagement.{phases, complete, halt, run, is_terminal, subscribe_events}
use zerra.Pentest.Ledger.{Unique, IsProved, IsSound, emit_event-Keeps}
use zerra.Pentest.Surface.{set_status-Keeps, phases-Keeps}

-- The stream of a subscriber ends with the first event that ends a run.
subscribe_events-append :
    (before : List PentestEvent) (last : PentestEvent)
    → All (λ (e : PentestEvent). is_terminal e ≡ false) before
    → is_terminal last ≡ true
    → subscribe_events (before ++ last ∷ []) ≡ (before ++ last ∷ [], true)
unfolding subscribe_events
subscribe_events-append [] last open_events ends = rw ends refl
subscribe_events-append (e ∷ before) last open_events ends =
    rw (open_events.0, subscribe_events-append before last open_events.1 ends) refl

-- A run that is over: its ledgers, and its events up to the last one.
pub record IsOver {P : Type 0} (s : Pentest P) : Type 0 where
  pub unique : Unique s.findings_ledger
  pub proved : All IsProved s.findings_ledger
  pub streamed : subscribe_events s.events ≡ (s.events, true)
  pub ended : (s.status ≡ "completed") ⊎ (s.status ≡ "failed")

module _ {P : Type 0} (target : Target P) (config : PentestScanConfig) where
  complete-IsOver : (s : Pentest P) → IsSound s → IsOver (complete target config s).1
  unfolding complete emit_event current set_status
  complete-IsOver s h = record {
    unique = h.unique;
    proved = h.proved;
    streamed = subscribe_events-append s.events _ h.unfinished refl;
    ended = inl refl;
  }

  halt-IsOver : (e : Error) (s : Pentest P) → IsSound s → IsOver (halt target config e s).1
  unfolding halt emit_event set_status
  halt-IsOver e s h = record {
    unique = h.unique;
    proved = h.proved;
    streamed = subscribe_events-append s.events _ h.unfinished refl;
    ended = inr refl;
  }

  -- `complete` returns, so its event is not followed by that of the handler.
  finished-IsOver :
      (r : Result (Unit {0}) × Pentest P)
      → IsSound r.1
      → IsOver (handle (halt target config) (continue (λ done. complete target config) r)).1
  unfolding complete emit_event current set_status
  finished-IsOver (err e, s) h = halt-IsOver e s h
  finished-IsOver (ok done, s) h = record {
    unique = h.unique;
    proved = h.proved;
    streamed = subscribe_events-append s.events _ h.unfinished refl;
    ended = inl refl;
  }

  -- Whatever the target answers, and whether the run returns or raises: a run that is started from
  -- sound ledgers with no last event ends with the status "completed" or "failed"; a subscriber
  -- then has got every event and its stream has ended; no two findings share an endpoint and an
  -- OWASP entry; and a finding is confirmed exactly if its exploit was verified.
  pub run-IsOver : (s : Pentest P) → IsSound s → IsOver (run target config s).1
  unfolding run set_status emit_event
  run-IsOver s h =
      let running = (set_status-Keeps "running").kept s h in
      let started =
        (emit_event-Keeps target config "thought" "Root Orchestrator"
            ("Initializing autonomous security validation engagement for target "
              +++ target_base_url target config
              +++ ". Scan mode: "
              +++ config.mode_name
              +++ ".")
            refl).kept
          _ running in
      finished-IsOver (phases target config _) ((phases-Keeps target config).kept _ started)

  assess-Yields :
      Yields {S = Pentest P}
        (λ (done : Unit {0}). ⊥)
        (assess target config (get_skill "agentic_mcp_security"))
  unfolding assess get_skill test_skill test_agentic_mcp
  assess-Yields =
      Yields->>= {Q = λ done. ⊥} (emit_event target config "action" _ _)
        (λ told. Yields-raise {Q = λ done. ⊥} _)

  run_assessment_phase-Yields :
      (skills : List String)
      → str_mem "agentic_mcp_security" skills ≡ true
      → Yields {S = Pentest P} (λ (done : Unit {0}). ⊥) (run_assessment_phase target config skills)
  unfolding run_assessment_phase
  run_assessment_phase-Yields [] named = cc
  run_assessment_phase-Yields (skill_id ∷ rest) named =
      elim (Bool-cases (str_eq "agentic_mcp_security" skill_id)) [
        | inl same ↦
            subst
              (λ (skill : String).
                Yields {S = Pentest P} (λ (done : Unit {0}). ⊥)
                  (assess target config (get_skill skill)
                    >> run_assessment_phase target config rest))
              ((str_eq_iff "agentic_mcp_security" skill_id).0 same)
              (Yields-chain {R = λ done. ⊥} {Q = λ done. ⊥} assess-Yields
                (λ done never. absurd never))
        | inr differs ↦
            Yields->>= {Q = λ done. ⊥} (assess target config (get_skill skill_id))
              (λ done. run_assessment_phase-Yields rest (ground (arith, differs)))
      ]

  phases-Yields :
      str_mem "agentic_mcp_security" config.enabled_skills ≡ true
      → Yields {S = Pentest P} (λ (done : Unit {0}). ⊥) (phases target config)
  unfolding phases
  phases-Yields named = Yields->>= {Q = λ done. ⊥} (run_recon_phase target config) (λ mapped.
      Yields-chain {R = λ done. ⊥} {Q = λ done. ⊥}
        (run_assessment_phase-Yields config.enabled_skills named) (λ done never. absurd never))

  halted :
      (r : Result (Unit {0}) × Pentest P)
      → ((v : Unit {0}) → r.0 ≡ ok v → ⊥)
      → let after = handle (halt target config) (continue (λ done. complete target config) r) in
        (is_ok after.0 ≡ false) × (after.1.status ≡ "failed")
  unfolding halt set_status emit_event
  halted (err e, s) never = (refl, refl)
  halted (ok done, s) never = absurd (never done refl)

  -- Whatever the target answers: a run that has the skill "agentic_mcp_security" among its enabled
  -- ones, as every default configuration does, raises and ends with the status "failed". The test
  -- of this skill is called by a name that the class does not have.
  pub run-fails :
      (s : Pentest P)
      → str_mem "agentic_mcp_security" config.enabled_skills ≡ true
      → (is_ok (run target config s).0 ≡ false) × ((run target config s).1.status ≡ "failed")
  unfolding run set_status emit_event
  run-fails s named = halted (phases target config _) ((phases-Yields named).yielded _)
