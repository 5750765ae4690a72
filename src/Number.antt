-- ===== src/Number.antt =====
-- The numbers of JavaScript, as far as the program computes with them: NaN, the infinities, and
-- finite values, which are integers here (key counts, line counts and lengths below 2 ^ 53, where
-- floating point is exact). A negative zero is not told apart from zero.
use omarchy_hackertyper.Base.{
  ℕ, zero, suc, ◌+◌, ◌-◌, ◌&&◌, ◌||◌, Bool, true, false, not, leb, if◌then◌else◌,
}

-- `negsuc n` is -(n + 1).
pub data ℤ : Type 0 where
  pos : ℕ → ℤ
  negsuc : ℕ → ℤ

abbrev pub pos_part : ℤ → ℕ
pos_part (pos n) = n
pos_part (negsuc n) = 0

abbrev pub neg_part : ℤ → ℕ
neg_part (pos n) = 0
neg_part (negsuc n) = suc n

-- a - b, as an integer.
abbrev pub sub_ℕ : ℕ → ℕ → ℤ
sub_ℕ a b = if leb b a then pos (a - b) else negsuc (b - a - 1)

infixl 65 ◌+ℤ◌ ◌-ℤ◌
abbrev pub ◌+ℤ◌ : ℤ → ℤ → ℤ
a +ℤ b = sub_ℕ (pos_part a + pos_part b) (neg_part a + neg_part b)

abbrev pub ◌-ℤ◌ : ℤ → ℤ → ℤ
a -ℤ b = sub_ℕ (pos_part a + neg_part b) (neg_part a + pos_part b)

abbrev pub is_zero : ℤ → Bool
is_zero (pos zero) = true
is_zero _ = false

abbrev pub leb_ℤ : ℤ → ℤ → Bool
leb_ℤ a b = leb (pos_part a + neg_part b) (pos_part b + neg_part a)

pub data Number : Type 0 where
  nan inf neg_inf : Number
  finite : ℤ → Number

-- A natural number as a JavaScript number.
abbrev pub number : ℕ → Number
number n = finite (pos n)

-- `a <= b`: false where one of them is NaN.
abbrev pub number_le : Number → Number → Bool
number_le nan b = false
number_le neg_inf nan = false
number_le neg_inf b = true
number_le inf inf = true
number_le inf b = false
number_le (finite x) nan = false
number_le (finite x) inf = true
number_le (finite x) neg_inf = false
number_le (finite x) (finite y) = leb_ℤ x y

abbrev pub is_nan : Number → Bool
is_nan nan = true
is_nan _ = false

-- `isFinite`
abbrev pub is_finite : Number → Bool
is_finite (finite x) = true
is_finite _ = false

-- `Math.max` and `Math.min` of two arguments.
unfoldable pub math_max : Number → Number → Number
math_max a b = if is_nan a || is_nan b then nan else if number_le a b then b else a

unfoldable pub math_min : Number → Number → Number
math_min a b = if is_nan a || is_nan b then nan else if number_le a b then a else b

unfoldable pub number_add : Number → Number → Number
number_add nan b = nan
number_add inf nan = nan
number_add inf neg_inf = nan
number_add inf b = inf
number_add neg_inf nan = nan
number_add neg_inf inf = nan
number_add neg_inf b = neg_inf
number_add (finite x) nan = nan
number_add (finite x) inf = inf
number_add (finite x) neg_inf = neg_inf
number_add (finite x) (finite y) = finite (x +ℤ y)

abbrev pub number_neg : Number → Number
number_neg nan = nan
number_neg inf = neg_inf
number_neg neg_inf = inf
number_neg (finite x) = finite (pos 0 -ℤ x)

unfoldable pub number_sub : Number → Number → Number
unfolding number_add
number_sub a b = number_add a (number_neg b)

-- `a || b` on numbers: NaN and zero are falsy.
unfoldable pub number_or : Number → Number → Number
number_or nan b = b
number_or (finite x) b =
    if leb_ℤ x (pos 0) then (if leb_ℤ (pos 0) x then b else finite x) else finite x
number_or a b = a

-- `a < b`: false where one of them is NaN.
abbrev pub number_lt : Number → Number → Bool
number_lt a b = not (is_nan a || is_nan b) && not (number_le b a)

-- `Math.max(1, Number(x) || 1)`, as the program reads its counts.
unfoldable pub at_least_one : Number → Number
unfolding math_max number_or
at_least_one x = math_max (number 1) (number_or x (number 1))
