-- ===== src/Fnmatch.antt =====
-- `fnmatch.fnmatchcase` of the Python standard library: shell patterns with `*`, `?`, `[seq]` and
-- `[!seq]`, over the code points of the texts.
use zerra.Prelude.{
  ℕ, zero, suc, String, Bool, true, false, not, ◌&&◌, ◌||◌, Option, none, some, List, [], ◌∷◌, leb,
  ◌==◌, if◌then◌else◌, length, any, codes,
}

pub data Token : Type 0 where
  star one_char : Token
  literal : ℕ → Token
  -- The ranges of a bracket expression, and whether it is negated.
  bracket : Bool → List (ℕ × ℕ) → Token

-- The text up to the next `]`, and what follows it.
until_close : List ℕ → Option (List ℕ × List ℕ)
until_close [] = none
until_close (c ∷ s) =
    if c == b']'
    then some ([], s)
    else elim (until_close s) [ none ↦ none | some (body, rest) ↦ some (c ∷ body, rest) ]

-- A `]` that stands first belongs to the body.
body_after_close : List ℕ → Option (List ℕ × List ℕ)
unfolding until_close
body_after_close [] = none
body_after_close (c ∷ s) =
    if c == b']'
    then elim (until_close s) [ none ↦ none | some (body, rest) ↦ some (c ∷ body, rest) ]
    else until_close (c ∷ s)

-- `a-b` is a range; a dash that stands first or last is itself.
ranges : List ℕ → List (ℕ × ℕ)
ranges [] = []
ranges (a ∷ []) = (a, a) ∷ []
ranges (a ∷ d ∷ []) = (a, a) ∷ (d, d) ∷ []
ranges (a ∷ d ∷ b ∷ s) =
    let tail = ranges (d ∷ b ∷ s) in if d == b'-' then (a, b) ∷ ranges s else (a, a) ∷ tail

-- The token of a bracket expression whose text after `[` is given, and what follows it.
bracket_token : List ℕ → Option (Token × List ℕ)
unfolding body_after_close ranges
bracket_token [] = none
bracket_token (c ∷ s) =
    if c == b'!'
    then elim (body_after_close s) [
      | none ↦ none
      | some (body, rest) ↦ some (bracket true (ranges body), rest)
    ]
    else elim (body_after_close (c ∷ s)) [
      | none ↦ none
      | some (body, rest) ↦ some (bracket false (ranges body), rest)
    ]

-- A pattern has no more tokens than code points: its length is enough fuel.
tokens : ℕ → List ℕ → List Token
unfolding bracket_token
tokens zero s = []
tokens (suc fuel) [] = []
tokens (suc fuel) (c ∷ s) =
    let next = tokens fuel s in
    if c == b'*'
    then star ∷ next
    else if c == b'?'
    then one_char ∷ next
    else if c == b'['
    then elim (bracket_token s) [ none ↦ literal c ∷ next | some (t, rest) ↦ t ∷ tokens fuel rest ]
    else literal c ∷ next

admits : Token → ℕ → Bool
admits star c = true
admits one_char c = true
admits (literal d) c = c == d
admits (bracket negated items) c =
    let inside = any (λ (r : ℕ × ℕ). leb r.0 c && leb c r.1) items in
    if negated then not inside else inside

matches : List Token → List ℕ → Bool
unfolding admits
matches [] [] = true
matches [] (c ∷ s) = false
matches (star ∷ ts) [] = matches ts []
matches (star ∷ ts) (c ∷ s) = matches ts (c ∷ s) || matches (star ∷ ts) s
matches (t ∷ ts) [] = false
matches (t ∷ ts) (c ∷ s) = admits t c && matches ts s

unfoldable pub fnmatchcase : String → String → Bool
unfolding tokens matches
fnmatchcase name pattern = let pat = codes pattern in matches (tokens (length pat) pat) (codes name)
