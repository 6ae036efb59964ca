-- ===== src/ScanPolicy/Gate.antt =====
-- The outcome of PolicyEngine.evaluate, agent/policy_engine.py.
use zerra.Prelude.{
  ℕ, ◌≡◌, refl, String, Bool, not, ◌&&◌, ◌||◌, none, some, List, [], ◌∷◌, ◌++◌, arith, ltb, leb,
  filter, any, is_nil, count_if, or_else,
}
use zerra.ScanModels.{Finding, ScanResult, is_critical, is_high, is_secret, security_score}
use zerra.ScanPolicy.{
  Config, BlockRule, PolicyViolation, is_error, passed, evaluate, effective, within, begins, hits,
  grade_worse_than, grade_violations, count_violations, secret_violations, block_violations,
  block_violation, first_violation, error,
}

any-append :
    (test : PolicyViolation → Bool) (xs ys : List PolicyViolation)
    → any test (xs ++ ys) ≡ (any test xs || any test ys)
any-append test [] ys = refl
any-append test (x ∷ xs) ys = ground (arith, any-append test xs ys)

count_violations-is_error :
    (rule name : String) (n limit : ℕ)
    → any is_error (count_violations rule name n limit) ≡ ltb limit n
unfolding count_violations is_error error
count_violations-is_error rule name n limit = ground arith

de_morgan :
    (a d e : Bool) (m n k l : ℕ)
    → not (a || (ltb m n || (ltb k l || (d || e))))
      ≡ (not a && (leb n m && (leb l k && (not d && not e))))
de_morgan a d e m n k l = ground arith

module _ {F : Type 0} where
  -- A finding hits a block rule by its CWE, its OWASP category or its rule.
  abbrev is_hit : BlockRule → Finding F → Bool
  is_hit rule f =
      hits begins rule.cwe f.cwe_id
      || hits within rule.owasp f.owasp_category
      || hits within rule.rule_id f.rule_id

  block_violation-is_error :
      (rule : BlockRule) (f : Finding F) (rest : List PolicyViolation)
      → any is_error (elim (block_violation rule f) [ none ↦ rest | some v ↦ v ∷ [] ])
        ≡ (is_hit rule f || any is_error rest)
  unfolding block_violation is_error error
  block_violation-is_error rule f rest = ground arith

  first_violation-is_error :
      (rule : BlockRule) (fs : List (Finding F))
      → any is_error (first_violation rule fs) ≡ any (is_hit rule) fs
  unfolding first_violation
  first_violation-is_error rule [] = refl
  first_violation-is_error rule (f ∷ fs) =
      rw (← first_violation-is_error rule fs)
        (block_violation-is_error rule f (first_violation rule fs))

  block_violations-is_error :
      (rules : List BlockRule) (fs : List (Finding F))
      → any is_error (block_violations rules fs)
        ≡ any (λ (rule : BlockRule). any (is_hit rule) fs) rules
  unfolding block_violations
  block_violations-is_error [] fs = refl
  block_violations-is_error (rule ∷ rules) fs =
      rw (any-append, first_violation-is_error rule fs, block_violations-is_error rules fs) refl

  grade_violations-is_error :
      (config : Config) (result : ScanResult F)
      → any is_error (grade_violations config result)
        ≡ grade_worse_than (security_score result) (or_else config.min_grade "D")
  unfolding grade_violations is_error error
  grade_violations-is_error config result = ground arith

  secret_violations-is_error :
      (config : Config) (fs : List (Finding F))
      → any is_error (secret_violations config fs) ≡ (
          config.fail_on_new_secrets
          && not (is_nil (filter (λ (f : Finding F). is_secret f.vulnerability_type) fs)))
  unfolding secret_violations is_error error
  secret_violations-is_error config fs = ground arith

  -- A scan passes exactly if its grade, over all its findings, is not worse than the minimal one,
  -- and among the findings that are not suppressed there are no more critical and high ones than
  -- allowed, no secret where the policy forbids them, and none that hits a block rule.
  pub passed-evaluate :
      (today : ℕ) (config : Config) (result : ScanResult F)
      → let fs = effective today config result in
        passed (evaluate today config result) ≡ (
          not (grade_worse_than (security_score result) (or_else config.min_grade "D"))
          && (leb
                (count_if (λ (f : Finding F). is_critical f.severity) fs)
                (or_else config.max_critical 99)
              && (leb
                    (count_if (λ (f : Finding F). is_high f.severity) fs)
                    (or_else config.max_high 99)
                  && (not (
                        config.fail_on_new_secrets
                        && not (
                            is_nil (filter (λ (f : Finding F). is_secret f.vulnerability_type) fs)))
                      && not
                          (any (λ (rule : BlockRule). any (is_hit rule) fs) config.block_rules)))))
  unfolding passed evaluate
  passed-evaluate today config result =
      let fs = effective today config result in
      rw
        (
          any-append,
          any-append,
          any-append,
          any-append,
          grade_violations-is_error config result,
          count_violations-is_error,
          count_violations-is_error,
          secret_violations-is_error config fs,
          block_violations-is_error config.block_rules fs,
        )
        (de_morgan (grade_worse_than (security_score result) (or_else config.min_grade "D"))
          (config.fail_on_new_secrets
            && not (is_nil (filter (λ (f : Finding F). is_secret f.vulnerability_type) fs)))
          (any (λ (rule : BlockRule). any (is_hit rule) fs) config.block_rules)
          (or_else config.max_critical 99) (count_if (λ (f : Finding F). is_critical f.severity) fs)
          (or_else config.max_high 99) (count_if (λ (f : Finding F). is_high f.severity) fs))
