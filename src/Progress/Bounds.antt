-- ===== src/Progress/Bounds.antt =====
-- Whatever the arguments are, a new position lies in the text.
use omarchy_hackertyper.Base.{true, ◌≡◌, arith}
use omarchy_hackertyper.Number.{Number, nan, number, number_le}
use omarchy_hackertyper.Progress.{clamp, size_of, advance, retreat}

-- From 0 up to `top`, and not NaN.
abbrev pub InRange : Number → Number → Type 0
InRange r top = (number_le (number 0) r ≡ true) × (number_le r top ≡ true)

pub clamp-InRange :
    (value maximum : Number)
    → number_le (number 0) maximum ≡ true
    → InRange (clamp value (number 0) maximum) maximum
unfolding clamp
clamp-InRange nan maximum h = ground arith
clamp-InRange _ maximum h = ground arith

pub size_of_nonneg : (length : Number) → number_le (number 0) (size_of length) ≡ true
unfolding size_of
size_of_nonneg nan = ground arith
size_of_nonneg _ = ground arith

-- For all arguments, NaN, the infinities and negative numbers included, `advance` returns a
-- position between 0 and the size of the text.
pub advance-InRange :
    (index amount length : Number) → InRange (advance index amount length) (size_of length)
advance-InRange index amount length =
    unfold advance in clamp-InRange _ (size_of length) (size_of_nonneg length)

-- For all arguments, NaN, the infinities and negative numbers included, `retreat` returns a
-- position between 0 and the size of the text.
pub retreat-InRange :
    (index amount length : Number) → InRange (retreat index amount length) (size_of length)
retreat-InRange index amount length =
    unfold retreat in clamp-InRange _ (size_of length) (size_of_nonneg length)
