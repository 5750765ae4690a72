-- ===== src/Progress.antt =====
-- HackerTyperModel.js: `clamp`, `advance` and `retreat`, which move the reading position. The
-- arguments are what `Number(...)` makes of the caller's values; on a number it is the identity.
pub mod Bounds
pub mod Steps
use omarchy_hackertyper.Base.{Bool, if◌then◌else◌}
use omarchy_hackertyper.Number.{
  Number, number, is_finite, math_max, math_min, number_add, number_sub, number_or, at_least_one,
}

unfoldable pub clamp : Number → Number → Number → Number
unfolding math_max math_min
clamp value minimum maximum =
    let n = if is_finite value then value else minimum in math_max minimum (math_min maximum n)

-- `Math.max(0, Number(length) || 0)`
unfoldable pub size_of : Number → Number
unfolding math_max number_or
size_of length = math_max (number 0) (number_or length (number 0))

unfoldable pub advance : Number → Number → Number → Number
unfolding clamp size_of at_least_one number_add number_or
advance index amount length =
    clamp (number_add (number_or index (number 0)) (at_least_one amount)) (number 0)
      (size_of length)

unfoldable pub retreat : Number → Number → Number → Number
unfolding clamp size_of at_least_one number_sub number_or
retreat index amount length =
    clamp (number_sub (number_or index (number 0)) (at_least_one amount)) (number 0)
      (size_of length)
