-- ===== src/Sequence/Features.antt =====
-- Feature extraction, agent/sequential/feature_extractor.py.
use zerra.Prelude.{
  ℕ, ◌+◌, ◌-◌, ◌*◌, String, Bool, true, false, not, ◌&&◌, ◌||◌, Option, none, some, List, [], ◌∷◌,
  map, ltb, leb, ◌==◌, if◌then◌else◌, length, any, count_if, str_mem, codes,
}
use mathlib.Core.List.{reverse}
use zerra.Platform.{Platform, of_ℕ}
use zerra.Fnmatch.{fnmatchcase}
use zerra.Sequence.Events.{SequenceCallEvent}

abbrev pub sensitive_fields : List String
sensitive_fields = "ssn" ∷ "salary" ∷ "password" ∷ "token" ∷ "secret" ∷ "credit_card" ∷ "email" ∷ []

-- The value of the digits that a reversed text begins with; `none` without a digit.
leading_number : (ℕ → Option ℕ) → List ℕ → Option ℕ
leading_number digit_value [] = none
leading_number digit_value (c ∷ s) =
    let rest = leading_number digit_value s in
    elim (digit_value c) [
      | none ↦ none
      | some d ↦ elim rest [ none ↦ some d | some n ↦ some (d + 10 * n) ]
    ]

without_newline : List ℕ → List ℕ
without_newline [] = []
without_newline (c ∷ s) = if c == 10 then s else c ∷ s

-- `int(re.search(r"(\d+)$", s).group(1))`: `$` also stands before a newline that ends the text.
trailing_number : (ℕ → Option ℕ) → String → Option ℕ
unfolding leading_number without_newline
trailing_number digit_value s = leading_number digit_value (without_newline (reverse (codes s)))

-- `_numeric_object_ids`: empty as soon as one object has no number.
numeric_object_ids : (ℕ → Option ℕ) → List SequenceCallEvent → Option (List ℕ)
unfolding trailing_number
numeric_object_ids digit_value [] = some []
numeric_object_ids digit_value (e ∷ events) =
    let rest = numeric_object_ids digit_value events in
    elim e.object_id [
      | none ↦ rest
      | some object_id ↦ elim (trailing_number digit_value object_id) [
        | none ↦ none
        | some n ↦ elim rest [ none ↦ none | some ns ↦ some (n ∷ ns) ]
      ]
    ]

-- `all(0 < later - earlier <= 2 for earlier, later in zip(numbers, numbers[1:]))`.
steps_up : List ℕ → Bool
steps_up [] = true
steps_up (a ∷ []) = true
steps_up (a ∷ b ∷ ns) = ltb a b && leb b (a + 2) && steps_up (b ∷ ns)

is_sequential : Option (List ℕ) → Bool
unfolding steps_up
is_sequential none = false
is_sequential (some numbers) = leb 2 (length numbers) && steps_up numbers

-- `{x for x in xs}`.
distinct : List String → List String
distinct [] = []
distinct (x ∷ xs) = let rest = distinct xs in if str_mem x rest then rest else x ∷ rest

present : List (Option String) → List String
present [] = []
present (none ∷ xs) = present xs
present (some x ∷ xs) = x ∷ present xs

-- `next((e.scope_contract for e in events if e.scope_contract is not None), None)`.
first_contract : List SequenceCallEvent → Option (List String)
first_contract [] = none
first_contract (e ∷ events) = elim e.scope_contract [
  | none ↦ first_contract events
  | some contract ↦ some contract
]

max_of : List ℕ → ℕ
max_of [] = 0
max_of (n ∷ ns) = let m = max_of ns in if ltb n m then m else n

pub record Features (F : Type 0) : Type 0 where
  pub window_size : ℕ
  pub distinct_object_count : ℕ
  pub object_id_delta_pattern : F
  pub avg_inter_call_seconds : F
  pub inter_call_seconds_trend : F
  pub read_write_ratio : F
  pub endpoint_diversity : ℕ
  pub error_rate : F
  pub sensitivity_touched : F
  pub scope_violation_flag : F
  pub max_response_field_count : ℕ

-- An agent called an endpoint that no pattern of the contract matches.
unfoldable pub violates_scope : (String → String) → List SequenceCallEvent → Bool
unfolding first_contract
violates_scope lower events = elim (first_contract events) [
  | none ↦ false
  | some contract ↦
      any
        (λ (e : SequenceCallEvent).
          str_mem (lower e.identity_type) ("agent" ∷ "mcp" ∷ "mcp_server" ∷ []))
        events
      && any (λ (e : SequenceCallEvent). not (any (fnmatchcase e.endpoint) contract)) events
]

module _ (p : Platform) where
  open p use {Float, lit, div, lt, mean, lower, upper}

  -- `float(b)` and `bool(x)`.
  abbrev pub float_of_bool : Bool → Float
  float_of_bool b = if b then lit 100 else lit 0

  abbrev pub nonzero : Float → Bool
  nonzero x = lt x (lit 0) || lt (lit 0) x

  -- `max(0.0, (later - earlier).total_seconds())` over the neighbours.
  gaps : List SequenceCallEvent → List Float
  gaps [] = []
  gaps (a ∷ []) = []
  gaps (a ∷ b ∷ events) =
      div (of_ℕ p (b.timestamp - a.timestamp)) (of_ℕ p 1_000_000) ∷ gaps (b ∷ events)

  last_or : Float → List Float → Float
  last_or d [] = d
  last_or d (x ∷ xs) = last_or x xs

  -- `gaps[-1] / gaps[0] if len(gaps) >= 2 and gaps[0] > 0 else 1.0`.
  trend : List Float → Float
  unfolding last_or
  trend [] = lit 100
  trend (g ∷ []) = lit 100
  trend (g ∷ h ∷ gs) = if lt (lit 0) g then div (last_or h gs) g else lit 100

  average : List Float → Float
  average [] = lit 0
  average (g ∷ gs) = mean (g ∷ gs)

  -- `count / len(events) if events else 0.0`.
  share : ℕ → List SequenceCallEvent → Float
  share n [] = lit 0
  share n (e ∷ events) = div (of_ℕ p n) (of_ℕ p (length (e ∷ events)))

  unfoldable pub extract_features : List SequenceCallEvent → Features Float
  unfolding numeric_object_ids is_sequential distinct present max_of violates_scope gaps trend
      average share
  extract_features events = record {
    window_size = length events;
    distinct_object_count =
        length (distinct (present (map (λ (e : SequenceCallEvent). e.object_id) events)));
    object_id_delta_pattern =
        float_of_bool (is_sequential (numeric_object_ids p.digit_value events));
    avg_inter_call_seconds = average (gaps events);
    inter_call_seconds_trend = trend (gaps events);
    read_write_ratio =
        share
          (count_if (λ (e : SequenceCallEvent). str_mem (upper e.method) ("GET" ∷ "HEAD" ∷ []))
            events)
          events;
    endpoint_diversity = length (distinct (map (λ (e : SequenceCallEvent). e.endpoint) events));
    error_rate =
        share
          (count_if (λ (e : SequenceCallEvent). leb 400 e.status_code && ltb e.status_code 500)
            events)
          events;
    sensitivity_touched = float_of_bool (
        any
          (λ (e : SequenceCallEvent).
            any (λ field. str_mem (lower field) sensitive_fields) e.response_fields)
          events);
    scope_violation_flag = float_of_bool (violates_scope lower events);
    max_response_field_count =
        max_of (map (λ (e : SequenceCallEvent). length e.response_fields) events);
  }
