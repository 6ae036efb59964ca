-- ===== src/Platform.antt =====
-- What the program takes from the Python runtime and the model does not compute: doubles, their
-- formatting, and the case mapping of texts. `lit n` is the double nearest to n hundredths; every
-- literal of the modelled code is one. The laws are those of IEEE doubles that are no NaN: `lt` is
-- a strict weak order, and rounding is monotone.
use zerra.Prelude.{
  ℕ, ◌*◌, ◌≤◌, ◌≡◌, String, Option, List, Bool, true, false, ltb, if◌then◌else◌, ◌&&◌, arith,
}

pub record Platform : Type 1 where
  pub Float : Type 0
  pub lit : ℕ → Float
  pub add : Float → Float → Float
  pub sub : Float → Float → Float
  pub mul : Float → Float → Float
  pub div : Float → Float → Float
  pub lt : Float → Float → Bool
  -- `statistics.mean`, of a list that is not empty.
  pub mean : List Float → Float
  -- `ceil(x)` and `int(x)`, of a double that is not negative.
  pub ceil : Float → ℕ
  pub floor : Float → ℕ
  -- `str(uuid5(NAMESPACE_URL, name))`.
  pub uuid5 : String → String
  -- `round(x, 1)`.
  pub round1 : Float → Float
  -- `f"{x:.2f}"`.
  pub format2 : Float → String
  -- The value of a character that is a decimal digit of Unicode, `none` of any other.
  pub digit_value : ℕ → Option ℕ
  pub lower : String → String
  pub upper : String → String
  pub lt_asymm : (a b : Float) → lt a b ≡ true → lt b a ≡ false
  pub ge_trans : (a b c : Float) → lt a b ≡ false → lt b c ≡ false → lt a c ≡ false
  pub lt-lit : (m n : ℕ) → lt (lit m) (lit n) ≡ ltb m n
  -- Multiplication by a literal is monotone, and exact for a whole literal and 1.0 or 0.0.
  pub ge-mul_lit :
      (a b : Float) (n : ℕ) → lt a b ≡ false → lt (mul a (lit n)) (mul b (lit n)) ≡ false
  pub mul-zero : (n : ℕ) → mul (lit 0) (lit n) ≡ lit 0
  pub mul-one : (n : ℕ) → mul (lit 100) (lit n) ≡ lit n

module _ (p : Platform) where
  open p use {Float, lit, lt, lt_asymm, ge_trans, lt-lit}

  -- A whole number as a double.
  abbrev pub of_ℕ : ℕ → Float
  of_ℕ n = lit (n * 100)

  -- `max(a, b)` and `min(a, b)`: the first argument stays unless the second is beyond it.
  unfoldable pub max : Float → Float → Float
  max a b = if lt a b then b else a

  unfoldable pub min : Float → Float → Float
  min a b = if lt b a then b else a

  -- `a ≤ b`.
  abbrev pub AtMost : Float → Float → Type 0
  AtMost a b = lt b a ≡ false

  pub AtMost-refl : (a : Float) → AtMost a a
  AtMost-refl a = ground (arith, lt_asymm a a)

  pub AtMost-trans : (a b c : Float) → AtMost a b → AtMost b c → AtMost a c
  AtMost-trans a b c h k = ge_trans c b a k h

  AtMost-of_lt : (a b : Float) → lt a b ≡ true → AtMost a b
  AtMost-of_lt a b h = lt_asymm a b h

  pub AtMost-lit : (m n : ℕ) → m ≤ n → AtMost (lit m) (lit n)
  AtMost-lit m n h = rw lt-lit (ground arith)

  pub le_max_left : (a b : Float) → AtMost a (max a b)
  unfolding max
  le_max_left a b = ground (arith, AtMost-refl a, AtMost-of_lt a b)

  pub le_max_right : (a b : Float) → AtMost b (max a b)
  unfolding max
  le_max_right a b = ground (arith, AtMost-refl b)

  pub max-le : (a b c : Float) → AtMost a c → AtMost b c → AtMost (max a b) c
  unfolding max
  max-le a b c h k = ground arith

  min_le_left : (a b : Float) → AtMost (min a b) a
  unfolding min
  min_le_left a b = ground (arith, AtMost-refl a, AtMost-of_lt b a)

  min_le_right : (a b : Float) → AtMost (min a b) b
  unfolding min
  min_le_right a b = ground (arith, AtMost-refl b)

  -- `max(0.0, min(1.0, x))` and the like stay in their range.
  pub clamp_bounds :
      (m n : ℕ) (x : Float)
      → m ≤ n
      → AtMost (lit m) (max (lit m) (min (lit n) x)) × AtMost (max (lit m) (min (lit n) x)) (lit n)
  clamp_bounds m n x h =
      (le_max_left (lit m) _, max-le _ _ _ (AtMost-lit m n h) (min_le_left (lit n) x))

  le-min : (a b c : Float) → AtMost c a → AtMost c b → AtMost c (min a b)
  unfolding min
  le-min a b c h k = ground arith

  -- `min(hi, max(lo, x))` stays in the same range.
  pub clamp_bounds_min :
      (m n : ℕ) (x : Float)
      → m ≤ n
      → AtMost (lit m) (min (lit n) (max (lit m) x)) × AtMost (min (lit n) (max (lit m) x)) (lit n)
  clamp_bounds_min m n x h =
      (le-min _ _ _ (AtMost-lit m n h) (le_max_left (lit m) x), min_le_left (lit n) _)

  pub lt_trans : (a b c : Float) → lt a b ≡ true → lt b c ≡ true → lt a c ≡ true
  lt_trans a b c h k = ground (arith, lt_asymm b c, ge_trans a c b)

  -- A bound of a maximum is a bound of both.
  pub lt-max : (a b c : Float) → lt (max a b) c ≡ (lt a c && lt b c)
  unfolding max
  lt-max a b c = ground (arith, lt_trans a b c, ge_trans a b c)

  pub lt_of_le_lt : (a b c : Float) → AtMost a b → lt b c ≡ true → lt a c ≡ true
  lt_of_le_lt a b c h k = ground (arith, lt_asymm b c, ge_trans a c b, ge_trans b a c, lt_asymm a b)
