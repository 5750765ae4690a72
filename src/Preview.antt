-- ===== src/Preview.antt =====
-- HackerTyperModel.js: `preview`. `raw` is the text that `String(raw || "")` gives, and the counts
-- are what `Number(...)` makes of the caller's values.
pub mod Bounds
use omarchy_hackertyper.Base.{suc, ◌-◌, List, [], ◌∷◌, ◌++◌, if◌then◌else◌, Text, length, take}
use omarchy_hackertyper.Lines.{split_lines, join_lines, trim, trim_end}
use omarchy_hackertyper.Number.{
  Number, nan, inf, neg_inf, finite, pos, negsuc, number, number_lt, number_sub, math_max,
  at_least_one,
}

-- `list.slice(0, end)`: a negative end counts from the back.
abbrev pub slice_to {ℓ} : {A : Type ℓ} → Number → List A → List A
slice_to nan xs = []
slice_to neg_inf xs = []
slice_to inf xs = xs
slice_to (finite (pos n)) xs = take n xs
slice_to (finite (negsuc n)) xs = take (length xs - suc n) xs

-- `text.substr(0, count)`: nothing for a negative count.
abbrev pub substr_to : Number → Text → Text
substr_to nan s = []
substr_to neg_inf s = []
substr_to inf s = s
substr_to (finite (pos n)) s = take n s
substr_to (finite (negsuc n)) s = []

abbrev pub ellipsis : Text
ellipsis = 0x2026 ∷ []

-- The variable `out` before the limit is applied.
unfoldable pub first_lines : Text → Number → Text
unfolding split_lines join_lines trim at_least_one
first_lines raw line_count =
    trim (join_lines (slice_to (at_least_one line_count) (split_lines raw)))

unfoldable pub preview : Text → Number → Number → Text
unfolding first_lines at_least_one number_sub math_max trim_end
preview raw line_count character_limit =
    let limit = at_least_one character_limit in
    let out = first_lines raw line_count in
    if number_lt limit (number (length out))
    then trim_end (substr_to (math_max (number 1) (number_sub limit (number 1))) out) ++ ellipsis
    else out
