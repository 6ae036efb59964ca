-- ===== src/PrEngine/Reports.antt =====
-- PREngine.process of agent/pr_engine.py: the report.
use zerra.Prelude.{
  ℕ, ◌+◌, ◌≤◌, ◌≡◌, refl, ◌∙◌, String, Bool, true, not, ◌||◌, Option, none, some, List, [], ◌∷◌,
  ◌++◌, arith, length, length-append, leb, leb→le, lt_of_leb, truthy, ◌⊎◌, inl, inr,
}
use zerra.Prelude.Results.{ok}
use zerra.Prelude.Effects.{
  Yields, Yields-return, Yields->>=, Yields-chain, Yields-if, Yields-ite, Yields-weaken,
}
use zerra.ScanModels.{Finding, FixSuggestion, ScanResult}
use zerra.PrEngine.{Log, Host}
use zerra.PrEngine.Process.{
  PrResult, IssueResult, EngineReport, PrEngine, process, process_from, process_one, after_attempt,
  fall_back, with_issue, attempted, create_issue, start_report, open_findings,
}

-- The findings that a report accounts for.
unfoldable pub accounted : EngineReport → ℕ
accounted report = length report.prs_opened + length report.issues_opened + length report.skipped

-- One more finding was looked at: there is at most one more pull request, and at most one more
-- entry in all, exactly one if no issues are opened.
record IsNext (open_issues : Bool) (before after : EngineReport) : Type 0 where
  prs : length after.prs_opened ≤ length before.prs_opened + 1
  entries : accounted after ≤ accounted before + 1
  exact : (open_issues ≡ true) ⊎ (accounted after ≡ accounted before + 1)
  total : after.total_findings ≡ before.total_findings

with_issue-IsNext :
    (open_issues : Bool) (report : EngineReport) (result : Option IssueResult)
    → open_issues ≡ true
    → IsNext open_issues report (with_issue report result)
unfolding with_issue accounted
with_issue-IsNext open_issues report none opens = record {
  prs = omega arith;
  entries = omega arith;
  exact = inl opens;
  total = refl;
}
with_issue-IsNext open_issues report (some result) opens = record {
  prs = omega arith;
  entries = omega (arith, length-append report.issues_opened (result ∷ []));
  exact = inl opens;
  total = refl;
}

skip-IsNext :
    (open_issues : Bool) (report : EngineReport) (entry : String × String)
    → IsNext open_issues report (record report { skipped = report.skipped ++ entry ∷ [] })
unfolding accounted
skip-IsNext open_issues report entry = record {
  prs = omega arith;
  entries = omega (arith, length-append report.skipped (entry ∷ []));
  exact = inr (omega (arith, length-append report.skipped (entry ∷ [])));
  total = refl;
}

open-IsNext :
    (open_issues : Bool) (report : EngineReport) (result : PrResult)
    → IsNext open_issues report (record report { prs_opened = report.prs_opened ++ result ∷ [] })
unfolding accounted
open-IsNext open_issues report result = record {
  prs = omega (arith, length-append report.prs_opened (result ∷ []));
  entries = omega (arith, length-append report.prs_opened (result ∷ []));
  exact = inr (omega (arith, length-append report.prs_opened (result ∷ [])));
  total = refl;
}

module _ {F : Type 0} (is_zero : F → Bool) (one_decimal : F → String) (host : Host)
    (generate_fix : Finding F → Option FixSuggestion) (engine : PrEngine) where
  fall_back-Yields :
      (report : EngineReport) (finding : Finding F)
      → Yields
          (IsNext engine.open_issues report)
          (fall_back is_zero one_decimal host generate_fix engine report finding)
  unfolding fall_back
  fall_back-Yields report finding =
      Yields-ite {Q = IsNext engine.open_issues report} engine.open_issues
        (λ opens.
          Yields->>= {Q = IsNext engine.open_issues report}
            (create_issue is_zero one_decimal host generate_fix engine finding)
            (λ result.
              Yields-return {Q = IsNext engine.open_issues report} _
                (with_issue-IsNext engine.open_issues report result opens)))
        (λ skips.
          Yields-return {Q = IsNext engine.open_issues report} _
            (skip-IsNext engine.open_issues report (finding.id, "No fix available")))

  after_attempt-Yields :
      (report : EngineReport) (finding : Finding F) (result : Option PrResult)
      → Yields
          (IsNext engine.open_issues report)
          (after_attempt is_zero one_decimal host generate_fix engine report finding result)
  unfolding after_attempt
  after_attempt-Yields report finding none = fall_back-Yields report finding
  after_attempt-Yields report finding (some result) =
      Yields-return {Q = IsNext engine.open_issues report} _
        (open-IsNext engine.open_issues report result)

  process_one-Yields :
      (report : EngineReport) (finding : Finding F)
      → Yields
          (IsNext engine.open_issues report)
          (process_one is_zero one_decimal host generate_fix engine report finding)
  unfolding process_one
  process_one-Yields report finding =
      Yields-if {Q = IsNext engine.open_issues report}
        (not (truthy finding.file_path) || not (truthy finding.code_snippet))
        (Yields-return {Q = IsNext engine.open_issues report} _
          (skip-IsNext engine.open_issues report (finding.id, "No file path or code snippet")))
        (Yields->>= {Q = IsNext engine.open_issues report}
          (attempted is_zero one_decimal host generate_fix engine finding (generate_fix finding))
          (λ result. after_attempt-Yields report finding result))

  -- A report that came out of the findings, from the report before them.
  record IsReport (before : EngineReport) (findings : List (Finding F)) (report : EngineReport)
      : Type 0 where
    bounded : length report.prs_opened ≤ engine.max_prs
    entries : accounted report ≤ accounted before + length findings
    exact :
        (engine.open_issues ≡ true)
        ⊎ (length report.prs_opened ≡ engine.max_prs)
        ⊎ (accounted report ≡ accounted before + length findings)
    total : report.total_findings ≡ before.total_findings

  IsReport-next :
      (before next after : EngineReport) (finding : Finding F) (rest : List (Finding F))
      → IsNext engine.open_issues before next
      → IsReport next rest after
      → IsReport before (finding ∷ rest) after
  IsReport-next before next after finding rest n r = record {
    bounded = r.bounded;
    entries = omega (arith, n.entries, r.entries);
    exact = elim r.exact [
      | inl opens ↦ inl opens
      | inr (inl full) ↦ inr (inl full)
      | inr (inr rest_exact) ↦ elim n.exact [
        | inl opens ↦ inl opens
        | inr one ↦ inr (inr (omega arith))
      ]
    ];
    total = r.total ∙ n.total;
  }

  process_from-Yields :
      (report : EngineReport) (findings : List (Finding F))
      → length report.prs_opened ≤ engine.max_prs
      → Yields
          (IsReport report findings)
          (process_from is_zero one_decimal host generate_fix engine report findings)
  unfolding process_from
  process_from-Yields report [] bounded = Yields-return {Q = IsReport report []} report (record {
    bounded = bounded;
    entries = omega arith;
    exact = inr (inr (omega arith));
    total = refl;
  })
  process_from-Yields report (finding ∷ rest) bounded =
      Yields-ite {Q = IsReport report (finding ∷ rest)}
        (leb engine.max_prs (length report.prs_opened))
        (λ full. Yields-return {Q = IsReport report (finding ∷ rest)} report (record {
          bounded = bounded;
          entries = omega arith;
          exact = inr (inl (omega (arith, leb→le _ _ full)));
          total = refl;
        }))
        (λ room.
          Yields-chain {R = IsNext engine.open_issues report} {Q = IsReport report (finding ∷ rest)}
            (process_one-Yields report finding)
            (λ next n.
              Yields-weaken {R = IsReport next rest} {Q = IsReport report (finding ∷ rest)}
                (λ after r. IsReport-next report next after finding rest n r)
                (process_from-Yields next rest
                  (omega (arith, n.prs, lt_of_leb engine.max_prs _ room)))))

  -- A scan's report has at most `max_prs` pull requests, and no more entries than the scan has open
  -- findings; it has exactly one for each of them, if no issues are opened and fewer than `max_prs`
  -- pull requests were. It counts all findings, the closed ones included.
  pub process_lem :
      (r : ScanResult F) (log : Log) {report : EngineReport}
      → (process is_zero one_decimal host generate_fix engine r log).0 ≡ ok report
      → (length report.prs_opened ≤ engine.max_prs)
        × (accounted report ≤ length (open_findings r))
        × ((engine.open_issues ≡ true)
            ⊎ (length report.prs_opened ≡ engine.max_prs)
            ⊎ (accounted report ≡ length (open_findings r)))
        × (report.total_findings ≡ length r.findings)
  unfolding process accounted start_report
  process_lem r log {report} returns =
      let start = start_report is_zero one_decimal host generate_fix engine r in
      let fs = open_findings r in
      let made = (process_from-Yields start fs (omega arith)).yielded log report returns in
      (
        made.bounded,
        omega (arith, made.entries),
        elim made.exact [
          | inl opens ↦ inl opens
          | inr (inl full) ↦ inr (inl full)
          | inr (inr exact) ↦ inr (inr (omega (arith, exact)))
        ],
        made.total,
      )
