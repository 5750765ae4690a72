-- ===== src/Lines.antt =====
-- The string methods that the program uses on lines: `split("\n")`, `join("\n")`, white space as
-- `\s` has it, and the three kinds of trimming.
pub mod Laws
use omarchy_hackertyper.Base.{
  ℕ, Bool, true, false, not, ◌&&◌, ◌||◌, List, [], ◌∷◌, ◌++◌, ◌==◌, if◌then◌else◌, Text, within,
  drop_while,
}

abbrev pub newline : ℕ
newline = 10

abbrev pub carriage_return : ℕ
carriage_return = 13

abbrev pub byte_order_mark : ℕ
byte_order_mark = 0xfeff

-- The code units of `\s`, which are those that `trim` removes.
unfoldable pub is_space : ℕ → Bool
is_space c =
    within 9 13 c
    || c == 32
    || c == 0xa0
    || c == 0x1680
    || within 0x2000 0x200a c
    || c == 0x2028
    || c == 0x2029
    || c == 0x202f
    || c == 0x205f
    || c == 0x3000
    || c == 0xfeff

abbrev pub not_newline : ℕ → Bool
not_newline c = not (c == newline)

abbrev pub cons_head : ℕ → List Text → List Text
cons_head x [] = (x ∷ []) ∷ []
cons_head x (l ∷ ls) = (x ∷ l) ∷ ls

unfoldable pub split_lines : Text → List Text
split_lines [] = [] ∷ []
split_lines (x ∷ xs) =
    let rest = split_lines xs in if x == newline then [] ∷ rest else cons_head x rest

unfoldable pub join_lines : List Text → Text
join_lines [] = []
join_lines (l ∷ []) = l
join_lines (l ∷ m ∷ ls) = l ++ newline ∷ join_lines (m ∷ ls)

abbrev pub is_empty {ℓ} : {A : Type ℓ} → List A → Bool
is_empty [] = true
is_empty (x ∷ xs) = false

unfoldable pub trim_start : Text → Text
trim_start s = drop_while is_space s

unfoldable pub trim_end : Text → Text
trim_end [] = []
trim_end (x ∷ xs) = let rest = trim_end xs in if is_empty rest && is_space x then [] else x ∷ rest

-- `trim()`, and `replace(/^\s+|\s+$/g, "")`
unfoldable pub trim : Text → Text
unfolding trim_start trim_end
trim s = trim_end (trim_start s)
