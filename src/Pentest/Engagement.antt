-- ===== src/Pentest/Engagement.antt =====
-- PentestOrchestrator of agent/pentest/orchestrator.py: the run, and a subscriber of its events.
use zerra.Prelude.{
  Bool, true, false, ◌||◌, List, [], ◌∷◌, if◌then◌else◌, ◌+++◌, str_eq, show, length,
}
use zerra.Prelude.Results.{Error}
use zerra.Prelude.Effects.{Action, return, raise, ◌>>=◌, ◌>>◌, attempt}
use zerra.Pentest.{PentestEvent, PentestScanConfig, Target, Pentest, target_base_url, emit_event}
use zerra.Pentest.Phases.{Summary, summary_of, current, set_status, run_recon_phase}
use zerra.Pentest.Assessments.{run_assessment_phase}

module _ {P : Type 0} (target : Target P) (config : PentestScanConfig) where
  unfoldable pub run_synthesis_phase : Action (Pentest P) (Unit {0})
  run_synthesis_phase =
      emit_event target config "thought" "Root Orchestrator"
        "Aggregating validated findings, verifying proof-of-concept indicators, and finalizing mitigation policies."

  -- The three phases.
  unfoldable pub phases : Action (Pentest P) (Unit {0})
  unfolding run_synthesis_phase
  phases = do
    run_recon_phase target config
    run_assessment_phase target config config.enabled_skills
    run_synthesis_phase

  -- The end of the `try` block.
  unfoldable pub complete : Action (Pentest P) Summary
  complete = do
    set_status "completed"
    s ← current
    emit_event target config "complete" "Root Orchestrator" (
        "Autonomous validation complete. Validated "
        +++ show (length s.findings_ledger)
        +++ " findings with actionable PoCs and virtual patches.")
    return (summary_of s)

  -- The handler, which raises the exception again.
  unfoldable pub halt : Error → Action (Pentest P) Summary
  halt e = do
    set_status "failed"
    emit_event target config "error" "Root Orchestrator"
        ("Validation halted due to exception: " +++ target.message e)
    raise e

  unfoldable pub run : Action (Pentest P) Summary
  unfolding phases complete halt
  run = do
    set_status "running"
    emit_event target config "thought" "Root Orchestrator" (
        "Initializing autonomous security validation engagement for target "
        +++ target_base_url target config
        +++ ". Scan mode: "
        +++ config.mode_name
        +++ ".")
    attempt (phases >> complete) halt

-- `event.event_type in ("complete", "error")`.
abbrev pub is_terminal : PentestEvent → Bool
is_terminal event = str_eq event.event_type "complete" || str_eq event.event_type "error"

-- `subscribe_events` over the events that are put: what it yields, and whether it has ended.
unfoldable pub subscribe_events : List PentestEvent → List PentestEvent × Bool
subscribe_events [] = ([], false)
subscribe_events (event ∷ rest) =
    let later = subscribe_events rest in
    if is_terminal event then (event ∷ [], true) else (event ∷ later.0, later.1)
