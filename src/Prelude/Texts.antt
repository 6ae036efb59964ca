-- ===== src/Prelude/Texts.antt =====
-- Texts: equality, search and printing, as Python's `str` has them.
use Prim.Native.Nat.{ℕ, zero, suc, ◌+◌, ◌-◌, ◌/◌, ◌%◌}
use Prim.Native.Char.{code}
use Prim.Native.String.{String}
use Prim.Native.String
use text.Mathlib.Text.{◌==◌ as text_eq, starts_with as native_starts_with, find?}
use text.Mathlib.TextEquality
use mathlib.Core.Path.{◌≡◌}
use mathlib.Core.Logic.{◌↔◌}
use mathlib.Core.Bool.{Bool, true, false, not, ◌||◌, ◌&&◌}
use mathlib.Core.Option.{Option, none, some}
use mathlib.Core.List.{List, [], ◌∷◌}
use zerra.Prelude.Lists.{length}
use zerra.Prelude.Tests.{◌==◌, leb, if◌then◌else◌, is_some}

abbrev pub str_eq : String → String → Bool
str_eq = text_eq

pub str_eq_iff : (s t : String) → (str_eq s t ≡ true) ↔ (s ≡ t)
str_eq_iff = TextEquality.eq_iff

infixl 65 ◌+++◌
abbrev pub ◌+++◌ : String → String → String
s +++ t = String.◌++◌ s t

-- A text is false in a test exactly if it is empty.
abbrev pub is_empty : String → Bool
is_empty s = str_eq s ""

-- `needle in hay`.
abbrev pub occurs_in : String → String → Bool
occurs_in needle hay = is_some (find? hay needle)

-- `s.startswith(prefix)`.
abbrev pub starts_with : String → String → Bool
starts_with s prefix = native_starts_with s prefix

-- `x in xs` for a list, a tuple or a set of texts.
abbrev pub str_mem : String → List String → Bool
str_mem s [] = false
str_mem s (t ∷ ts) = str_eq s t || str_mem s ts

-- `if x` for an optional text: it is there, and it is not empty.
abbrev pub truthy : Option String → Bool
truthy none = false
truthy (some s) = not (is_empty s)

-- `{x for x in xs if x}`, in some order, each text once.
abbrev pub text_set : List (Option String) → List String
text_set [] = []
text_set (none ∷ xs) = text_set xs
text_set (some s ∷ xs) =
    let rest = text_set xs in if is_empty s then rest else if str_mem s rest then rest else s ∷ rest

abbrev pub join : String → List String → String
join sep [] = ""
join sep (s ∷ []) = s
join sep (s ∷ t ∷ ts) = s +++ sep +++ join sep (t ∷ ts)

abbrev pub codes : String → List ℕ
codes String.[] = []
codes (String.◌∷◌ c s) = code c ∷ codes s

-- `s` without its first `skip` characters and, from there on, without `needle`.
without_from : String → ℕ → String → String
without_from needle skip String.[] = ""
without_from needle (suc skip) (String.◌∷◌ c s) = without_from needle skip s
without_from needle zero (String.◌∷◌ c s) =
    let found = without_from needle (length (codes needle) - 1) s in
    let rest = without_from needle zero s in
    if starts_with (String.◌∷◌ c s) needle then found else String.◌∷◌ c rest

-- `s.replace(needle, "")`, of a needle that is not empty.
unfoldable pub without : String → String → String
unfolding without_from
without needle s = without_from needle 0 s

-- `s.replace("_", " ")`.
unfoldable pub spaced : String → String
spaced String.[] = ""
spaced (String.◌∷◌ c s) =
    let rest = spaced s in if code c == b'_' then " " +++ rest else String.◌∷◌ c rest

digit : ℕ → String
digit n =
    if n == 0
    then "0"
    else if n == 1
    then "1"
    else if n == 2
    then "2"
    else if n == 3
    then "3"
    else if n == 4
    then "4"
    else if n == 5
    then "5"
    else if n == 6
    then "6"
    else if n == 7
    then "7"
    else if n == 8
    then "8"
    else "9"

show_from : ℕ → ℕ → String → String
unfolding digit
show_from zero n acc = acc
show_from (suc fuel) n acc =
    let more = show_from fuel (n / 10) (digit (n % 10) +++ acc) in
    if n / 10 == 0 then digit (n % 10) +++ acc else more

-- `str(n)`. A number has no more digits than `n + 1`, the fuel.
unfoldable pub show : ℕ → String
unfolding show_from
show n = show_from (n + 1) n ""

drop_chars : ℕ → String → String
drop_chars zero s = s
drop_chars (suc n) String.[] = ""
drop_chars (suc n) (String.◌∷◌ c s) = drop_chars n s

-- `s[-n:]` for a positive n.
unfoldable pub last_chars : ℕ → String → String
unfolding drop_chars
last_chars n s = drop_chars (length (codes s) - n) s

-- The pieces of `s` between the characters that the test holds of, empty ones included.
unfoldable pub split_at : (ℕ → Bool) → String → List String
split_at test String.[] = "" ∷ []
split_at test (String.◌∷◌ c s) =
    let rest = split_at test s in
    if test (code c)
    then "" ∷ rest
    else elim rest [ [] ↦ String.◌∷◌ c "" ∷ [] | piece ∷ more ↦ String.◌∷◌ c piece ∷ more ]

-- Python's white space, among the ASCII characters.
abbrev pub is_space : ℕ → Bool
is_space c = (c == 32) || (leb 9 c && leb c 13) || (leb 28 c && leb c 31)

-- `text.rstrip("/")`.
unfoldable pub strip_slashes : String → String
strip_slashes String.[] = ""
strip_slashes (String.◌∷◌ c s) =
    let rest = strip_slashes s in
    if is_empty rest && (code c == b'/') then "" else String.◌∷◌ c rest

-- `text.lstrip()`.
left_stripped : String → String
left_stripped String.[] = ""
left_stripped (String.◌∷◌ c s) =
    let rest = left_stripped s in if is_space (code c) then rest else String.◌∷◌ c s

right_stripped : String → String
right_stripped String.[] = ""
right_stripped (String.◌∷◌ c s) =
    let rest = right_stripped s in
    if is_empty rest && is_space (code c) then "" else String.◌∷◌ c rest

-- `text.strip()`.
unfoldable pub strip : String → String
unfolding left_stripped right_stripped
strip text = right_stripped (left_stripped text)

-- `text[:n]`.
unfoldable pub first_chars : ℕ → String → String
first_chars zero s = ""
first_chars (suc n) String.[] = ""
first_chars (suc n) (String.◌∷◌ c s) = String.◌∷◌ c (first_chars n s)
