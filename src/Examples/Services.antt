-- ===== src/Examples/Services.antt =====
-- Zones, scan policies and the queue on concrete inputs.
use zerra.Prelude.{
  ℕ, ◌<◌, ◌≤◌, ◌≡◌, refl, String, true, false, none, some, [], ◌∷◌, arith, All, str_mem, length,
}
use zerra.Prelude.Dict.{lookup}
use zerra.Platform.{AtMost, max, min}
use zerra.Zones.{
  TrustZone, ScoreState, TrustScoreInputs, initial_state, get_or_create, is_recovering, updated,
  process, next_zone, step, update_ewma, apply_warm_up_floor, compute_weighted_badness,
}
use zerra.Zones.Hysteresis
use zerra.Zones.Hysteresis.{badness_of, is_red, recovery_confirmed, next_zone_adjacent}
use zerra.Zones.Histories.{after, every_history}
use zerra.ScanModels.{
  Severity, ScanMode, ScanStatus, FindingStatus, VulnerabilityType, Finding, ScanConfig, ScanResult,
  security_score,
}
use zerra.ScanPolicy.{Config, default_policy, passed, grade_order, effective}
use zerra.ScanPolicy
use zerra.ScanModels
use zerra.ScanPolicy.Gate.{passed-evaluate}
use zerra.Queue.{ScanJob, ScanQueue, init_queue, enqueue, dispatch, new_job}
use zerra.Queue.Steps.{Step, Reachable, IsWaiting, IsDistinct}
use zerra.Queue.Invariant.{every_interleaving}
use zerra.Examples.{fixed_point, scan}

abbrev risky : TrustScoreInputs ℕ
risky = record {
  identity_id = "human-alice";
  call_id = "call-1";
  auth_strength = 95;
  graph_risk_score = 90;
  sequence_risk_score = 0;
  sensitive_fields_touched = [];
}

abbrev after_one : ScoreState ℕ
after_one =
    (updated fixed_point (initial_state fixed_point "human-alice" 5)
      (compute_weighted_badness fixed_point risky).0 5).0

stored : lookup "human-alice" (after fixed_point [] ((risky, 5) ∷ [])) ≡ some after_one
unfolding process get_or_create
stored = refl

every_history_example :
    AtMost fixed_point 0 after_one.trust_score
    × AtMost fixed_point after_one.trust_score 10_000
    × (after_one.consecutive_zone_calls ≤ 1)
    × (after_one.call_count ≤ 8 → is_red after_one.zone ≡ false)
every_history_example =
    every_history fixed_point ((risky, 5) ∷ []) "human-alice" {s = after_one} stored

-- One call past the line behind it.
abbrev recovering : ScoreState ℕ
recovering = record {
  identity_id = "human-alice";
  trust_score = 7900;
  previous_score = 7700;
  zone = TrustZone.yellow;
  consecutive_zone_calls = 1;
  last_updated = 5;
  ewma_state = 90;
  call_count = 20;
}

recovering-IsValid : Hysteresis.IsValid fixed_point recovering
recovering-IsValid = record {
  score_low = refl;
  score_high = refl;
  ewma_low = refl;
  ewma_high = refl;
  short = omega arith;
  streak = λ h. refl;
  warm = λ h. refl;
}

recovered : badness_of (updated fixed_point recovering 0 6).0.zone < badness_of recovering.zone
unfolding updated step update_ewma apply_warm_up_floor next_zone max min
recovered = omega arith

recovery_confirmed_example :
    let s' = (updated fixed_point recovering 0 6).0 in
    (is_recovering fixed_point TrustZone.yellow 7900 ≡ true)
    × (is_recovering fixed_point TrustZone.yellow s'.trust_score ≡ true)
    × (recovering.consecutive_zone_calls ≡ 1)
    × (s'.consecutive_zone_calls ≡ 0)
recovery_confirmed_example =
    recovery_confirmed fixed_point recovering 0 6 recovering-IsValid recovered

abbrev strict : Config
strict = record default_policy { fail_on_new_secrets = true }

-- The scan fails: it holds a secret.
passed-evaluate_example : passed (ScanPolicy.evaluate 7 strict scan) ≡ false
unfolding effective ScanPolicy.is_suppressed ScanPolicy.grade_worse_than grade_order security_score
    ScanModels.total_weight ScanModels.critical_count ScanModels.high_count ScanModels.medium_count
    ScanModels.low_count default_policy
passed-evaluate_example = passed-evaluate 7 strict scan

abbrev config : ScanConfig
config = record {
  repo_url = "https://example.org/r.git";
  branch = some "main";
  commit_sha = none;
  mode = ScanMode.quick;
  target_paths = [];
  excluded_paths = [];
  enable_sast = true;
  enable_sca = true;
  enable_secrets = true;
  github_token = none;
  max_file_size_kb = 500;
}

abbrev one_job : ScanQueue
one_job = (enqueue (init_queue 1 200) config none "job-1" 5).0

one_job-Reachable : Reachable ℕ (init_queue 1 200) (dispatch one_job).0
unfolding init_queue
one_job-Reachable =
    Reachable.goes_on one_job _
      (Reachable.goes_on (init_queue 1 200) _ Reachable.begins (
        Step.enqueued (init_queue 1 200) config none "job-1" 5
          (record { unknown = refl; not_waiting = refl; not_active = refl })))
      (Step.dispatched one_job)

every_interleaving_example :
    let q = (dispatch one_job).0 in
    (length q.active ≤ 1)
    × IsDistinct q.queue
    × All (λ (id : String). str_mem id q.active ≡ false) q.queue
    × All (IsWaiting q.jobs) q.queue
every_interleaving_example = every_interleaving 1 200 (dispatch one_job).0 one_job-Reachable

abbrev waiting_job : ScanJob
waiting_job = new_job config none "job-1" 5
