-- ===== src/Sequence/Detectors.antt =====
-- The detectors and the choice between their matches: agent/sequential/patterns,
-- state_machine_scorer.py and ensemble.py.
use zerra.Prelude.{
  ℕ, ◌+◌, ◌-◌, String, Bool, false, not, ◌&&◌, ◌||◌, Option, none, some, List, [], ◌∷◌, ltb, leb,
  ◌==◌, if◌then◌else◌, length, any, str_mem, occurs_in,
}
use zerra.Platform.{Platform, max}
use zerra.Sequence.Events.{SequenceCallEvent}
use zerra.Sequence.Features.{Features, sensitive_fields, nonzero}

pub record PatternMatch (F : Type 0) : Type 0 where
  pub pattern_name : String
  pub matched_at_call_index : ℕ
  pub confidence : F

-- The indices, from `i` on, of the events that pass a test.
unfoldable pub indices_from : (SequenceCallEvent → Bool) → ℕ → List SequenceCallEvent → List ℕ
indices_from test i [] = []
indices_from test i (e ∷ events) =
    if test e then i ∷ indices_from test (i + 1) events else indices_from test (i + 1) events

abbrev pub is_failure : SequenceCallEvent → Bool
is_failure e = e.status_code == 401 || e.status_code == 403

-- The first index, from `i` on, of an event that passes a test.
unfoldable pub first_from : (SequenceCallEvent → Bool) → ℕ → List SequenceCallEvent → Option ℕ
first_from test i [] = none
first_from test i (e ∷ events) = if test e then some i else first_from test (i + 1) events

abbrev pub export_endpoint_markers : List String
export_endpoint_markers = "export" ∷ "bulk" ∷ "download" ∷ "archive" ∷ []

-- An endpoint that is no member of the event's own contract.
abbrev pub is_outside : SequenceCallEvent → Bool
is_outside e = elim e.scope_contract [
  | none ↦ false
  | some contract ↦ not (str_mem e.endpoint contract)
]

module _ (p : Platform) where
  open p use {Float, lit, lt, lower}

  unfoldable pub third_failure : List ℕ → Option (PatternMatch Float)
  third_failure (a ∷ b ∷ c ∷ _) = some (record {
    pattern_name = "credential_probing";
    matched_at_call_index = c;
    confidence = lit 82;
  })
  third_failure _ = none

  unfoldable pub credential_probing : List SequenceCallEvent → Option (PatternMatch Float)
  credential_probing events = third_failure (indices_from is_failure 0 events)

  -- Export-shaped, or with a sensitive field in the response.
  unfoldable pub looks_exported : SequenceCallEvent → Bool
  looks_exported e =
      any (λ marker. occurs_in marker (lower e.endpoint)) export_endpoint_markers
      || leb 5 (length e.response_fields)
      || any (λ field. str_mem (lower field) sensitive_fields) e.response_fields

  unfoldable pub is_harvesting : Features Float → Bool
  is_harvesting f =
      leb 5 f.distinct_object_count
      && nonzero p f.object_id_delta_pattern
      && not (lt f.read_write_ratio (lit 70))
      && not (lt (lit 80) f.inter_call_seconds_trend)

  unfoldable pub exfil_match : ℕ → Float → PatternMatch Float
  exfil_match index confidence = record {
    pattern_name = "enumeration_exfil";
    matched_at_call_index = index;
    confidence = confidence;
  }

  unfoldable pub enumeration_exfil :
      List SequenceCallEvent → Features Float → Option (PatternMatch Float)
  enumeration_exfil events features =
      if is_harvesting features
      then elim (first_from looks_exported 0 events) [
        | some index ↦ some (exfil_match index (lit 94))
        | none ↦
            some (exfil_match (if ltb 4 (length events - 1) then 4 else length events - 1) (lit 74))
      ]
      else none

  unfoldable pub scope_violation_chain :
      List SequenceCallEvent → Features Float → Option (PatternMatch Float)
  scope_violation_chain events features =
      if nonzero p features.scope_violation_flag
      then some (record {
        pattern_name = "scope_violation_chain";
        matched_at_call_index = elim (first_from is_outside 0 events) [
          | some index ↦ index
          | none ↦ 0
        ];
        confidence = lit 95;
      })
      else none

  -- `max(…, key=confidence, default=None)`: the first of the strongest matches.
  unfoldable pub stronger :
      Option (PatternMatch Float) → Option (PatternMatch Float) → Option (PatternMatch Float)
  stronger none m = m
  stronger (some a) none = some a
  stronger (some a) (some b) = if lt a.confidence b.confidence then some b else some a

  unfoldable pub strongest_match :
      List SequenceCallEvent → Features Float → Option (PatternMatch Float)
  strongest_match events features =
      stronger (stronger (enumeration_exfil events features) (credential_probing events))
        (scope_violation_chain events features)

  -- `ensemble.combine`; without the ML scorer its second argument is None.
  unfoldable pub combine : Option (PatternMatch Float) → Option Float → Float
  combine none none = lit 0
  combine none (some s) = max p (lit 0) s
  combine (some m) none = max p (lit 0) m.confidence
  combine (some m) (some s) = max p (max p (lit 0) m.confidence) s
