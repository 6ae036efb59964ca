-- ===== src/Sequence/Bounds.antt =====
-- The range of the risk that agent/sequential computes.
use zerra.Prelude.{Option, none, some, List, arith, Bool-cases, inl, inr}
use zerra.Platform.{Platform, AtMost, AtMost-lit, AtMost-refl, le_max_left, max-le}
use zerra.Sequence.Events.{SequenceCallEvent}
use zerra.Sequence.Features.{Features}
use zerra.Sequence.Detectors.{
  PatternMatch, credential_probing, third_failure, enumeration_exfil, exfil_match,
  scope_violation_chain, stronger, strongest_match, combine,
}

module _ (p : Platform) where
  open p use {Float, lit, lt}

  -- A match, if there is one, has a confidence of at most 0.95.
  abbrev IsModest : Option (PatternMatch Float) → Type 0
  IsModest none = Unit
  IsModest (some m) = AtMost p m.confidence (lit 95)

  stronger-IsModest :
      (m n : Option (PatternMatch Float)) → IsModest m → IsModest n → IsModest (stronger p m n)
  unfolding stronger
  stronger-IsModest none n h k = k
  stronger-IsModest (some a) none h k = h
  stronger-IsModest (some a) (some b) h k = elim (Bool-cases (lt a.confidence b.confidence)) [
    | inl less ↦ rw less k
    | inr more ↦ rw more h
  ]

  enumeration_exfil-IsModest :
      (es : List SequenceCallEvent) (f : Features Float) → IsModest (enumeration_exfil p es f)
  unfolding enumeration_exfil exfil_match
  enumeration_exfil-IsModest es f = ground (arith, p.lt-lit 95 94, p.lt-lit 95 74)

  credential_probing-IsModest : (es : List SequenceCallEvent) → IsModest (credential_probing p es)
  unfolding credential_probing third_failure
  credential_probing-IsModest es = ground (arith, p.lt-lit 95 82)

  scope_violation_chain-IsModest :
      (es : List SequenceCallEvent) (f : Features Float) → IsModest (scope_violation_chain p es f)
  unfolding scope_violation_chain
  scope_violation_chain-IsModest es f = ground (arith, p.lt-lit 95 95)

  combine-bounds :
      (m : Option (PatternMatch Float))
      → IsModest m
      → AtMost p (lit 0) (combine p m none) × AtMost p (combine p m none) (lit 95)
  unfolding combine
  combine-bounds none h = (AtMost-refl p (lit 0), AtMost-lit p 0 95 (omega arith))
  combine-bounds (some m) h =
      (le_max_left p (lit 0) m.confidence, max-le p _ _ _ (AtMost-lit p 0 95 (omega arith)) h)

  -- The sequence risk lies between 0 and 0.95.
  pub strongest_match_bounds :
      (es : List SequenceCallEvent) (f : Features Float)
      → AtMost p (lit 0) (combine p (strongest_match p es f) none)
        × AtMost p (combine p (strongest_match p es f) none) (lit 95)
  unfolding strongest_match
  strongest_match_bounds es f = combine-bounds _ (
      stronger-IsModest _ _
        (stronger-IsModest _ _ (enumeration_exfil-IsModest es f) (credential_probing-IsModest es))
        (scope_violation_chain-IsModest es f))
