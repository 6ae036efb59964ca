-- ===== src/ScanModels/Grades.antt =====
-- The letter grade of agent/scanner/models.py.
use zerra.Prelude.{ℕ, ◌≤◌, ◌≡◌, refl, arith, ◌==◌, leb, Bool, true, false, ◌∷◌, if◌then◌else◌}
use zerra.ScanModels.{
  Finding, ScanResult, critical_count, high_count, medium_count, low_count, total_weight,
  security_score,
}
use zerra.ScanPolicy.{grade_order}

-- A letter grade by the weight of the findings.
abbrev grade_of : ℕ → ℕ
grade_of w =
    if w == 0
    then 0
    else if leb w 3
    then 1
    else if leb w 8
    then 2
    else if leb w 15
    then 3
    else if leb w 25
    then 4
    else 5

grade_of_mono : (v w : ℕ) → v ≤ w → grade_of v ≤ grade_of w
grade_of_mono v w h = ground arith

-- The order of the letter that a chain of tests chooses.
grade_order-chain :
    (a b c d e : Bool)
    → grade_order (
        if a
        then "A+"
        else if b
        then "A"
        else if c
        then "B"
        else if d
        then "C"
        else if e
        then "D"
        else "F")
      ≡ (if a then 0 else if b then 1 else if c then 2 else if d then 3 else if e then 4 else 5)
unfolding grade_order
grade_order-chain true b c d e = refl
grade_order-chain false true c d e = refl
grade_order-chain false false true d e = refl
grade_order-chain false false false true e = refl
grade_order-chain false false false false true = refl
grade_order-chain false false false false false = refl

module _ {F : Type 0} where
  grade_order-security_score :
      (r : ScanResult F) → grade_order (security_score r) ≡ grade_of (total_weight r)
  unfolding security_score
  grade_order-security_score r =
      let w = total_weight r in grade_order-chain (w == 0) (leb w 3) (leb w 8) (leb w 15) (leb w 25)

  total_weight-more :
      (r : ScanResult F) (f : Finding F)
      → total_weight r ≤ total_weight (record r { findings = f ∷ r.findings })
  unfolding total_weight critical_count high_count medium_count low_count
  total_weight-more r f = ground arith

  -- A further finding never makes the grade better.
  pub security_score-worse :
      (r : ScanResult F) (f : Finding F)
      → grade_order (security_score r)
        ≤ grade_order (security_score (record r { findings = f ∷ r.findings }))
  security_score-worse r f =
      rw
        (
          grade_order-security_score r,
          grade_order-security_score (record r { findings = f ∷ r.findings }),
        )
        (grade_of_mono (total_weight r) (total_weight (record r { findings = f ∷ r.findings }))
          (total_weight-more r f))
