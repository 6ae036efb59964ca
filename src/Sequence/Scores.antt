-- ===== src/Sequence/Scores.antt =====
-- The detectors of agent/sequential/patterns, and the risk that comes of their matches.
use zerra.Prelude.{
  ℕ, ◌+◌, ◌-◌, ◌≤◌, ◌≡◌, refl, Bool, true, not, ◌&&◌, ◌||◌, Option, none, some, List, [], ◌∷◌,
  arith, leb, length, count_if, get_elem?, take, is_some,
}
use zerra.Platform.{Platform, max, lt-max}
use zerra.Sequence.Events.{SequenceCallEvent}
use zerra.Sequence.Features.{Features, extract_features, violates_scope, nonzero, float_of_bool}
use zerra.Sequence.Detectors.{
  PatternMatch, indices_from, first_from, is_failure, credential_probing, third_failure,
  enumeration_exfil, scope_violation_chain, stronger, strongest_match, combine, is_harvesting,
  looks_exported, exfil_match,
}

module _ (test : SequenceCallEvent → Bool) where
  length-indices_from :
      (i : ℕ) (es : List SequenceCallEvent) → length (indices_from test i es) ≡ count_if test es
  unfolding indices_from
  length-indices_from i [] = refl
  length-indices_from i (e ∷ es) = ground (arith, length-indices_from (i + 1) es)

  -- The k-th index is that of an event up to which k + 1 events pass the test.
  indices_from-count :
      (i k a : ℕ) (es : List SequenceCallEvent)
      → get_elem? (indices_from test i es) k ≡ some a
      → (i ≤ a) × (count_if test (take (a + 1 - i) es) ≡ k + 1)
  unfolding indices_from
  indices_from-count i k a [] h = cc
  indices_from-count i k a (e ∷ es) h =
      grind (arith, indices_from-count (i + 1) k a es, indices_from-count (i + 1) (k - 1) a es)

module _ (p : Platform) where
  open p use {Float, lit, lt}

  -- The risk of one optional match.
  abbrev risk_of : Option (PatternMatch Float) → Float
  risk_of m = combine p m none

  lt-stronger :
      (a b : Option (PatternMatch Float)) (c : Float)
      → lt (lit 0) c ≡ true
      → lt (risk_of (stronger p a b)) c ≡ (lt (risk_of a) c && lt (risk_of b) c)
  unfolding combine stronger max
  lt-stronger none b c z = rw z
  lt-stronger (some a) none c z = ground (arith, lt-max p (lit 0) a.confidence c)
  lt-stronger (some a) (some b) c z = ground (
    arith,
    lt-max p (lit 0) a.confidence c,
    lt-max p (lit 0) b.confidence c,
    lt-max p a.confidence b.confidence c,
  )

  third_failure_lem :
      (l : List ℕ)
      → (is_some (third_failure p l) ≡ leb 3 (length l))
        × ((m : PatternMatch Float)
            → third_failure p l ≡ some m
            → get_elem? l 2 ≡ some m.matched_at_call_index)
  unfolding third_failure
  third_failure_lem [] = (refl, λ m h. cc)
  third_failure_lem (a ∷ []) = (refl, λ m h. cc)
  third_failure_lem (a ∷ b ∷ []) = (refl, λ m h. cc)
  third_failure_lem (a ∷ b ∷ c ∷ l) = (ground arith, λ m h. ground arith)

  -- Probing is reported exactly for three or more refused calls in the window, at the third one.
  pub credential_probing_lem :
      (es : List SequenceCallEvent)
      → (is_some (credential_probing p es) ≡ leb 3 (count_if is_failure es))
        × ((m : PatternMatch Float)
            → credential_probing p es ≡ some m
            → count_if is_failure (take (m.matched_at_call_index + 1) es) ≡ 3)
  unfolding credential_probing
  credential_probing_lem es =
      let failures = indices_from is_failure 0 es in
      (
        rw (← length-indices_from is_failure 0 es) (third_failure_lem failures).0,
        λ m h.
            let third =
              indices_from-count is_failure 0 2 m.matched_at_call_index es
                ((third_failure_lem failures).1 m h) in
            let from_0 : m.matched_at_call_index + 1 - 0 ≡ m.matched_at_call_index + 1 =
              omega arith in
            rw from_0 at third.1,
      )

  -- What each detector adds to the question whether the risk stays below 0.85.
  lt-enumeration :
      (es : List SequenceCallEvent) (f : Features Float)
      → lt (risk_of (enumeration_exfil p es f)) (lit 85)
        ≡ not (is_harvesting p f && is_some (first_from (looks_exported p) 0 es))
  unfolding enumeration_exfil exfil_match combine
  lt-enumeration es f = ground (
    arith,
    lt-max p (lit 0) (lit 94) (lit 85),
    lt-max p (lit 0) (lit 74) (lit 85),
    p.lt-lit 0 85,
    p.lt-lit 94 85,
    p.lt-lit 74 85,
  )

  lt-probing :
      (es : List SequenceCallEvent) → lt (risk_of (credential_probing p es)) (lit 85) ≡ true
  unfolding credential_probing third_failure combine
  lt-probing es = ground (arith, lt-max p (lit 0) (lit 82) (lit 85), p.lt-lit 0 85, p.lt-lit 82 85)

  lt-scope :
      (es : List SequenceCallEvent) (f : Features Float)
      → lt (risk_of (scope_violation_chain p es f)) (lit 85)
        ≡ not (nonzero p f.scope_violation_flag)
  unfolding scope_violation_chain combine
  lt-scope es f = ground (arith, lt-max p (lit 0) (lit 95) (lit 85), p.lt-lit 0 85, p.lt-lit 95 85)

  nonzero-float_of_bool : (b : Bool) → nonzero p (float_of_bool p b) ≡ b
  nonzero-float_of_bool b = ground (arith, p.lt-lit 100 0, p.lt-lit 0 100, p.lt-lit 0 0)

  flag_lem :
      (es : List SequenceCallEvent)
      → nonzero p (extract_features p es).scope_violation_flag ≡ violates_scope p.lower es
  unfolding extract_features
  flag_lem es = nonzero-float_of_bool (violates_scope p.lower es)

  -- The sequence risk reaches the blocking line of 0.85 exactly if an agent left its scope in the
  -- window, or the window is harvesting and one of its calls looks like an export. Probing alone
  -- stays below.
  pub strongest_match_high :
      (es : List SequenceCallEvent)
      → let f = extract_features p es in
        lt (combine p (strongest_match p es f) none) (lit 85)
        ≡ not (
            violates_scope p.lower es
            || (is_harvesting p f && is_some (first_from (looks_exported p) 0 es)))
  unfolding strongest_match
  strongest_match_high es =
      let f = extract_features p es in
      let enumeration = enumeration_exfil p es f in
      let probing = credential_probing p es in
      ground (
        arith,
        lt-stronger (stronger p enumeration probing) (scope_violation_chain p es f) (lit 85),
        lt-stronger enumeration probing (lit 85),
        lt-enumeration es f,
        lt-probing es,
        lt-scope es f,
        flag_lem es,
        p.lt-lit 0 85,
      )
