-- ===== src/Webhooks/Comments/Listing.antt =====
-- Which findings format_scan_comment of agent/integrations/webhook_handler.py lists.
use zerra.Prelude.{
  ℕ, zero, suc, ◌≡◌, refl, true, false, List, [], ◌∷◌, arith, take, count_if, leb, if◌then◌else◌,
  Bool-cases, inl, inr, ◌⊎◌,
}
use zerra.ScanModels.{Severity, is_critical, Finding, ScanResult, critical_count}
use zerra.Webhooks.Comments.{value_less, insert_sorted, sorted, top_findings}

-- "critical" is the first of the five texts.
value_less-critical : (s t : Severity) → is_critical t ≡ true → value_less s t ≡ false
value_less-critical Severity.critical Severity.critical h = refl
value_less-critical Severity.high Severity.critical h = refl
value_less-critical Severity.medium Severity.critical h = refl
value_less-critical Severity.low Severity.critical h = refl
value_less-critical Severity.info Severity.critical h = refl
value_less-critical s Severity.high h = cc
value_less-critical s Severity.medium h = cc
value_less-critical s Severity.low h = cc
value_less-critical s Severity.info h = cc

value_less-others :
    (s t : Severity) → is_critical s ≡ true → is_critical t ≡ false → value_less s t ≡ true
value_less-others Severity.critical Severity.high h g = refl
value_less-others Severity.critical Severity.medium h g = refl
value_less-others Severity.critical Severity.low h g = refl
value_less-others Severity.critical Severity.info h g = refl
value_less-others Severity.critical Severity.critical h g = cc
value_less-others Severity.high t h g = cc
value_less-others Severity.medium t h g = cc
value_less-others Severity.low t h g = cc
value_less-others Severity.info t h g = cc

module _ {F : Type 0} where
  criticals : List (Finding F) → ℕ
  criticals = count_if (λ (f : Finding F). is_critical f.severity)

  -- The critical findings are in front.
  AreFirst : List (Finding F) → Type 0
  AreFirst [] = Unit
  AreFirst (f ∷ fs) = ((is_critical f.severity ≡ true) × AreFirst fs) ⊎ (criticals (f ∷ fs) ≡ 0)

  criticals-insert_sorted :
      (f : Finding F) (fs : List (Finding F)) → criticals (insert_sorted f fs) ≡ criticals (f ∷ fs)
  unfolding criticals insert_sorted
  criticals-insert_sorted f [] = refl
  criticals-insert_sorted f (g ∷ gs) = ground (arith, criticals-insert_sorted f gs)

  criticals-sorted : (fs : List (Finding F)) → criticals (sorted fs) ≡ criticals fs
  unfolding criticals sorted
  criticals-sorted [] = refl
  criticals-sorted (f ∷ fs) =
      ground (arith, criticals-insert_sorted f (sorted fs), criticals-sorted fs)

  insert_sorted-AreFirst :
      (f : Finding F) (fs : List (Finding F)) → AreFirst fs → AreFirst (insert_sorted f fs)
  unfolding AreFirst criticals insert_sorted
  insert_sorted-AreFirst f [] h = elim (Bool-cases (is_critical f.severity)) [
    | inl is ↦ inl (is, tt)
    | inr other ↦ inr (ground arith)
  ]
  insert_sorted-AreFirst f (g ∷ gs) (inl (first, h)) =
      elim (Bool-cases (value_less g.severity f.severity)) [
        | inl less ↦ rw less (inl (first, insert_sorted-AreFirst f gs h))
        | inr more ↦ rw more (elim (Bool-cases (is_critical f.severity)) [
          | inl is ↦ inl (is, inl (first, h))
          | inr other ↦ let ahead = value_less-others g.severity f.severity first other in cc
        ])
      ]
  insert_sorted-AreFirst f (g ∷ gs) (inr others) =
      elim (Bool-cases (value_less g.severity f.severity)) [
        | inl less ↦ rw less (elim (Bool-cases (is_critical f.severity)) [
          | inl is ↦ let behind = value_less-critical g.severity f.severity is in cc
          | inr other ↦ inr (ground (arith, criticals-insert_sorted f gs))
        ])
        | inr more ↦ rw more (elim (Bool-cases (is_critical f.severity)) [
          | inl is ↦ inl (is, inr others)
          | inr other ↦ inr (ground arith)
        ])
      ]

  sorted-AreFirst : (fs : List (Finding F)) → AreFirst (sorted fs)
  unfolding AreFirst sorted
  sorted-AreFirst [] = tt
  sorted-AreFirst (f ∷ fs) = insert_sorted-AreFirst f (sorted fs) (sorted-AreFirst fs)

  criticals-take : (n : ℕ) (fs : List (Finding F)) → criticals fs ≡ 0 → criticals (take n fs) ≡ 0
  unfolding criticals
  criticals-take zero fs zeros = refl
  criticals-take (suc n) [] zeros = refl
  criticals-take (suc n) (f ∷ fs) zeros = ground (arith, criticals-take n fs)

  take-AreFirst :
      (n : ℕ) (fs : List (Finding F))
      → AreFirst fs
      → criticals (take n fs) ≡ (if leb (criticals fs) n then criticals fs else n)
  unfolding AreFirst criticals
  take-AreFirst zero fs h = ground arith
  take-AreFirst (suc n) [] h = ground arith
  take-AreFirst (suc n) (f ∷ fs) (inl (first, h)) = ground (arith, take-AreFirst n fs h)
  take-AreFirst (suc n) (f ∷ fs) (inr others) =
      ground (arith, criticals-take n (f ∷ fs) others, criticals-take (suc n) (f ∷ fs) others)

  -- A comment lists every critical finding of the scan if there are at most ten, and ten critical
  -- ones otherwise.
  pub top_findings_lem :
      (r : ScanResult F)
      → count_if (λ (f : Finding F). is_critical f.severity) (top_findings r)
        ≡ (if leb (critical_count r) 10 then critical_count r else 10)
  unfolding top_findings criticals critical_count
  top_findings_lem r =
      rw (criticals-sorted r.findings) at
        (take-AreFirst 10 (sorted r.findings) (sorted-AreFirst r.findings))
