-- ===== src/AttackSim/Runs.antt =====
-- The loop of AttackSimulator.run, agent/attack_sim/simulator.py: its report and its end.
use zerra.Prelude.{
  is_nil, ℕ, suc, ◌+◌, ◌≡◌, refl, true, not, Option, none, some, List, [], ◌∷◌, ◌++◌, arith,
  if◌then◌else◌, length, length-append, count_if, all, Option-cases, inl, inr,
}
use mathlib.Core.Path.{subst}
use zerra.Prelude.Results.{ok, >>=-eq-ok, ok-injective, is_ok}
use zerra.Platform.{Platform}
use zerra.Contracts.{DecisionResponse, is_allow, is_step_up, is_block}
use zerra.Identity
use zerra.Policy.Total.{has_valid_parameters}
use zerra.Metrics.{ZerraMetrics}
use zerra.Metrics.Counts.{IsConsistent, record_decision-IsConsistent}
use zerra.Engine.{ZerraEngine, evaluate_event, evaluate_known}
use zerra.Engine.Decision.{evaluate_event_total, evaluate_event-known, evaluate_event-unknown}
use zerra.AttackSim.{
  ScenarioEvent, ScenarioRunResult, Run, record_in, round, rounds, summary_of, run,
}

module _ {F : Type 0} where
  -- The number, from `i` on, of the first decision that is no allow.
  abbrev pub first_flag_from : ℕ → List (DecisionResponse F) → Option ℕ
  first_flag_from i [] = none
  first_flag_from i (d ∷ ds) = if is_allow d.verdict then first_flag_from (i + 1) ds else some i

  first_flag-append :
      (i : ℕ) (ds : List (DecisionResponse F)) (d : DecisionResponse F)
      → first_flag_from i (ds ++ d ∷ []) ≡ elim (first_flag_from i ds) [
        | none ↦ if is_allow d.verdict then none else some (i + length ds)
        | some j ↦ some j
      ]
  first_flag-append i [] d = ground arith
  first_flag-append i (e ∷ ds) d = ground (arith, first_flag-append (i + 1) ds d)

  count-verdicts :
      (ds : List (DecisionResponse F))
      → count_if (λ (d : DecisionResponse F). is_allow d.verdict) ds
          + count_if (λ (d : DecisionResponse F). is_step_up d.verdict) ds
          + count_if (λ (d : DecisionResponse F). is_block d.verdict) ds
        ≡ length ds
  count-verdicts [] = omega arith
  count-verdicts (d ∷ ds) = ground (arith, count-verdicts ds)

  -- The metrics that a run may be given.
  abbrev pub AreConsistent : Option (ZerraMetrics F) → Type 0
  AreConsistent none = Unit
  AreConsistent (some m) = IsConsistent m

  -- The loop's variables before round `index`.
  record Tracks (index : ℕ) (r : Run F) : Type 0 where
    counted : length r.decisions + 1 ≡ index
    flag : r.first_flagged ≡ first_flag_from 1 r.decisions
    metrics : AreConsistent r.metrics

module _ (p : Platform) where
  open p use {Float}

  record_in-AreConsistent :
      (m : Option (ZerraMetrics Float)) (d : DecisionResponse Float) (latency : Float)
      (e : ScenarioEvent) (index : ℕ)
      → AreConsistent m
      → AreConsistent (record_in p m d latency e index)
  unfolding record_in
  record_in-AreConsistent none d latency e index h = tt
  record_in-AreConsistent (some m) d latency e index h =
      record_decision-IsConsistent m d latency _ _ _ h

  round-Tracks :
      (clock : ℕ → ℕ × Float) (index : ℕ) (r : Run Float) (e : ScenarioEvent) {r' : Run Float}
      → Tracks index r
      → round p clock index r e ≡ ok r'
      → Tracks (index + 1) r'
  unfolding round
  round-Tracks clock index r e {r'} t h =
      let outcome = (evaluate_event p r.engine e.event (clock index).0 (clock index).1).1 in
      let (d, _, eq) = >>=-eq-ok outcome _ h in
      subst (Tracks (index + 1)) (ok-injective eq) (record {
        counted = omega (arith, t.counted, length-append {0} r.decisions (d ∷ []));
        flag = ground (arith, t.flag, t.counted, first_flag-append 1 r.decisions d);
        metrics = record_in-AreConsistent r.metrics d (clock index).1 e index t.metrics;
      })

  rounds-Tracks :
      (clock : ℕ → ℕ × Float) (index : ℕ) (r : Run Float) (events : List ScenarioEvent)
      {r' : Run Float}
      → Tracks index r
      → rounds p clock index r events ≡ ok r'
      → Tracks (index + length events) r'
  unfolding rounds
  rounds-Tracks clock index r [] t h =
      let none_left : index + 0 ≡ index = omega arith in
      rw none_left (subst (Tracks index) (ok-injective h) t)
  rounds-Tracks clock index r (e ∷ events) t h =
      let (r₁, eq, rest) =
        >>=-eq-ok (round p clock index r e) (λ r'. rounds p clock (index + 1) r' events) h in
      let more : index + suc (length events) ≡ index + 1 + length events = omega arith in
      rw more (rounds-Tracks clock (index + 1) r₁ events (round-Tracks clock index r e t eq) rest)

  -- An evaluation keeps the policies.
  evaluate_event-policies :
      (engine : ZerraEngine Float) (e : ScenarioEvent) (now : ℕ) (latency : Float)
      → (evaluate_event p engine e.event now latency).0.policies ≡ engine.policies
  unfolding evaluate_known
  evaluate_event-policies engine e now latency =
      elim (Option-cases (Identity.get engine.registry e.event.identity_id)) [
        | inl unknown ↦ rw (evaluate_event-unknown p engine e.event now latency unknown)
        | inr (identity, known) ↦
            rw (evaluate_event-known p engine e.event now latency identity known)
      ]

  rounds_total :
      (clock : ℕ → ℕ × Float) (index : ℕ) (r : Run Float) (events : List ScenarioEvent)
      → all has_valid_parameters r.engine.policies ≡ true
      → (r' : Run Float) × (rounds p clock index r events ≡ ok r')
  unfolding rounds round
  rounds_total clock index r [] known = (r, refl)
  rounds_total clock index r (e ∷ events) known =
      let now = (clock index).0 in
      let latency = (clock index).1 in
      let (d, eq, _) = evaluate_event_total p r.engine e.event now latency known in
      rw eq (
        rounds_total clock (index + 1) _ events
          (rw (evaluate_event-policies r.engine e now latency) known))

  -- A scenario with at least one event runs to its end, if the engine's policies have valid
  -- parameters; an empty one is refused.
  pub run_total :
      (clock : ℕ → ℕ × Float) (engine : ZerraEngine Float) (events : List ScenarioEvent)
      (metrics : Option (ZerraMetrics Float))
      → all has_valid_parameters engine.policies ≡ true
      → is_ok (run p clock engine events metrics) ≡ not (is_nil events)
  unfolding run
  run_total clock engine [] metrics known = refl
  run_total clock engine (e ∷ events) metrics known =
      let (r, eq) =
        rounds_total clock 1
          (record { engine = engine; metrics = metrics; decisions = []; first_flagged = none })
          (e ∷ events) known in
      rw eq

  -- A run that ends has one decision for every event; it reports as allowed, stepped up and blocked
  -- the numbers of decisions with that verdict, which add up to the calls; the first flagged call
  -- is the first decision that is no allow, counted from 1; and the metrics that it fed stay
  -- consistent.
  pub run_report :
      (clock : ℕ → ℕ × Float) (engine : ZerraEngine Float) (events : List ScenarioEvent)
      (metrics : Option (ZerraMetrics Float)) {r : Run Float} {s : ScenarioRunResult Float}
      → AreConsistent metrics
      → run p clock engine events metrics ≡ ok (r, s)
      → (s.total_calls ≡ length events)
        × (length s.decisions ≡ length events)
        × (s.allowed ≡ count_if (λ (d : DecisionResponse Float). is_allow d.verdict) s.decisions)
        × (s.stepped_up
            ≡ count_if (λ (d : DecisionResponse Float). is_step_up d.verdict) s.decisions)
        × (s.blocked ≡ count_if (λ (d : DecisionResponse Float). is_block d.verdict) s.decisions)
        × (s.allowed + s.stepped_up + s.blocked ≡ s.total_calls)
        × (s.first_flagged_call ≡ first_flag_from 1 s.decisions)
        × AreConsistent r.metrics
  unfolding run summary_of
  run_report clock engine [] metrics c h = cc
  run_report clock engine (e ∷ events) metrics {r} {s} c h =
      let first : Run Float = record {
        engine = engine;
        metrics = metrics;
        decisions = [];
        first_flagged = none;
      } in
      let (last, eq, shown) =
        >>=-eq-ok (rounds p clock 1 first (e ∷ events))
          (λ r. ok (r, summary_of p e.scenario (length (e ∷ events)) r)) h in
      let t =
        rounds-Tracks clock 1 first (e ∷ events)
          (record { counted = refl; flag = refl; metrics = c }) eq in
      let same = ok-injective shown in
      subst Reports same (
        refl,
        omega (arith, t.counted),
        refl,
        refl,
        refl,
        omega (arith, t.counted, count-verdicts last.decisions),
        t.flag,
        t.metrics,
      )
    where
      Reports : Run Float × ScenarioRunResult Float → Type 0
      Reports (r, s) =
          (s.total_calls ≡ length (e ∷ events))
          × (length s.decisions ≡ length (e ∷ events))
          × (s.allowed ≡ count_if (λ (d : DecisionResponse Float). is_allow d.verdict) s.decisions)
          × (s.stepped_up
              ≡ count_if (λ (d : DecisionResponse Float). is_step_up d.verdict) s.decisions)
          × (s.blocked ≡ count_if (λ (d : DecisionResponse Float). is_block d.verdict) s.decisions)
          × (s.allowed + s.stepped_up + s.blocked ≡ s.total_calls)
          × (s.first_flagged_call ≡ first_flag_from 1 s.decisions)
          × AreConsistent r.metrics
