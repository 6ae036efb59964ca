-- ===== src/Notifications/Dispatch.antt =====
-- notify_scan_complete of agent/notifications/dispatcher.py: the alerts and the report.
use zerra.Prelude.{
  ◌≡◌, refl, String, Bool, true, not, ◌&&◌, List, [], ◌∷◌, arith, filter, is_nil, is_some, str_eq,
  str_eq_iff, str_mem, All, All-append, if◌then◌else◌, Bool-cases, inl, inr,
}
use zerra.Prelude.Dict.{lookup, lookup-insert}
use zerra.ScanModels.{Finding, ScanResult}
use zerra.Notifications.{
  NotificationConfig, Outcome, severity_meets_threshold, min_severity_for, relevant_findings,
  notify_one, notify_from, notify_scan_complete, init_channels,
}

module _ {F : Type 0} where
  -- An alert names findings that its channel asked for only.
  abbrev pub IsRelevant : NotificationConfig → String × List (Finding F) → Type 0
  IsRelevant config (name, fs) =
      All
        (λ (f : Finding F).
          severity_meets_threshold f.severity (min_severity_for config name) ≡ true)
        fs

  All-filter :
      (test : Finding F → Bool) (fs : List (Finding F))
      → All (λ (f : Finding F). test f ≡ true) (filter test fs)
  All-filter test [] = tt
  All-filter test (f ∷ fs) = elim (Bool-cases (test f)) [
    | inl met ↦ rw met (met, All-filter test fs)
    | inr unmet ↦ rw unmet (All-filter test fs)
  ]

  module _ (config : NotificationConfig) (sends : String → List (Finding F) → Bool)
      (r : ScanResult F) where
    notify_one-IsRelevant :
        (o : Outcome F) (name : String)
        → All (IsRelevant config) o.sent
        → All (IsRelevant config) (notify_one config sends r o name).sent
    unfolding notify_one relevant_findings
    notify_one-IsRelevant o name h =
        elim (Bool-cases (is_nil (relevant_findings config name r) && not (is_nil r.findings))) [
          | inl skipped ↦ rw skipped h
          | inr sent ↦ rw sent (
              All-append (IsRelevant config) o.sent _ h (
                All-filter
                    (λ (f : Finding F).
                      severity_meets_threshold f.severity (min_severity_for config name))
                    r.findings,
                tt,
              ))
        ]

    notify_from-IsRelevant :
        (o : Outcome F) (names : List String)
        → All (IsRelevant config) o.sent
        → All (IsRelevant config) (notify_from config sends r o names).sent
    unfolding notify_from
    notify_from-IsRelevant o [] h = h
    notify_from-IsRelevant o (name ∷ names) h =
        notify_from-IsRelevant (notify_one config sends r o name) names
          (notify_one-IsRelevant o name h)

    -- A name that has a result keeps one, and the round's own name gets one.
    notify_one-reports :
        (o : Outcome F) (name other : String)
        → is_some (lookup other (notify_one config sends r o name).results)
          ≡ (if str_eq name other then true else is_some (lookup other o.results))
    unfolding notify_one
    notify_one-reports o name other = ground (
      arith,
      lookup-insert {V = Bool} name other true o.results,
      lookup-insert {V = Bool} name other (sends name (relevant_findings config name r)) o.results,
    )

    notify_from-reports :
        (o : Outcome F) (names : List String) (other : String)
        → is_some (lookup other (notify_from config sends r o names).results)
          ≡ (if str_mem other names then true else is_some (lookup other o.results))
    unfolding notify_from
    notify_from-reports o [] other = refl
    notify_from-reports o (name ∷ names) other = ground (
      arith,
      notify_from-reports (notify_one config sends r o name) names other,
      notify_one-reports o name other,
      str_eq_iff name other,
      str_eq_iff other name,
    )

    -- Whatever the channels raise, every configured channel and no other gets a result, and every
    -- alert that is tried names findings of its channel's severity only.
    pub notify_scan_complete_lem :
        ((name : String)
          → is_some (lookup name (notify_scan_complete config sends r).results)
            ≡ str_mem name (init_channels config))
        × All (IsRelevant config) (notify_scan_complete config sends r).sent
    unfolding notify_scan_complete
    notify_scan_complete_lem =
        let start : Outcome F = record { results = []; sent = [] } in
        (
          λ name. ground (arith, notify_from-reports start (init_channels config) name),
          notify_from-IsRelevant start (init_channels config) tt,
        )
