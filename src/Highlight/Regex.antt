-- ===== src/Highlight/Regex.antt =====
-- The regular expressions that SyntaxHighlight.js builds, with the matching of ECMAScript: by
-- backtracking, alternatives from left to right, greedy and lazy repetition, on UTF-16 code units.
pub mod Sound
pub mod Search
pub mod Inversion
pub mod Runs
use omarchy_hackertyper.Base.{
  ℕ, zero, suc, Bool, true, false, not, ◌&&◌, ◌||◌, List, [], ◌∷◌, Option, none, some, ◌==◌,
  if◌then◌else◌, Text, within, length,
}

pub data CharSet : Type 0 where
  -- one code unit; any other; `[\s\S]`; `.`; `\d`; `[A-Za-z_]`; `[A-Za-z0-9_]`
  single : ℕ → CharSet
  other_than : ℕ → CharSet
  any dot digit word_start word_part : CharSet

pub data Regex : Type 0 where
  set : CharSet → Regex
  empty : Regex
  -- `$` and `\b`
  end_of_input boundary : Regex
  seq alt : Regex → Regex → Regex
  -- `*` and `*?`
  star lazy : Regex → Regex

abbrev pub plus : Regex → Regex
plus r = seq r (star r)

-- `?`
abbrev pub optional : Regex → Regex
optional r = alt r empty

abbrev pub is_digit : ℕ → Bool
is_digit c = within b'0' b'9' c

abbrev pub is_letter : ℕ → Bool
is_letter c = within b'A' b'Z' c || within b'a' b'z' c || c == b'_'

abbrev pub is_word : ℕ → Bool
is_word c = is_letter c || is_digit c

abbrev pub is_line_end : ℕ → Bool
is_line_end c = c == 10 || c == 13 || within 0x2028 0x2029 c

unfoldable pub holds : CharSet → ℕ → Bool
holds (single d) c = c == d
holds (other_than d) c = not (c == d)
holds any c = true
holds dot c = not (is_line_end c)
holds digit c = is_digit c
holds word_start c = is_letter c
holds word_part c = is_word c

-- A position in a text: what stands before it, nearest first, and what follows.
pub record Cursor : Type 0 where
  pub before : Text
  pub rest : Text

abbrev pub cursor : Text → Text → Cursor
cursor b r = record { before = b; rest = r }

abbrev pub first_is_word : Text → Bool
first_is_word [] = false
first_is_word (x ∷ xs) = is_word x

unfoldable pub is_boundary : Cursor → Bool
is_boundary c = if first_is_word c.before then not (first_is_word c.rest) else first_is_word c.rest

-- What is to be matched behind an expression.
abbrev pub Rest : Type 0
Rest = Cursor → Option Cursor

abbrev pub Matcher : Type 0
Matcher = Cursor → Rest → Option Cursor

abbrev pub or_else : Option Cursor → Option Cursor → Option Cursor
or_else none b = b
or_else (some c) b = some c

-- An iteration that takes in nothing is no match.
abbrev pub has_moved : Cursor → Cursor → Bool
has_moved c c' = not (length c.rest == length c'.rest)

-- Repetition, with as many rounds at most as there are code units left.
unfoldable pub greedy : Matcher → ℕ → Matcher
greedy body zero c k = k c
greedy body (suc n) c k =
    let stop = k c in
    or_else (body c (λ c'. if has_moved c c' then greedy body n c' k else none)) stop

unfoldable pub reluctant : Matcher → ℕ → Matcher
reluctant body zero c k = k c
reluctant body (suc n) c k =
    let more = body c (λ c'. if has_moved c c' then reluctant body n c' k else none) in
    or_else (k c) more

abbrev pub match_set : CharSet → Text → Text → Rest → Option Cursor
match_set s b [] k = none
match_set s b (x ∷ xs) k = if holds s x then k (cursor (x ∷ b) xs) else none

abbrev pub match_end : Text → Cursor → Rest → Option Cursor
match_end [] c k = k c
match_end (x ∷ xs) c k = none

unfoldable pub match_regex : Regex → Matcher
unfolding holds is_boundary greedy reluctant
match_regex (set s) c k = match_set s c.before c.rest k
match_regex empty c k = k c
match_regex end_of_input c k = match_end c.rest c k
match_regex boundary c k = if is_boundary c then k c else none
match_regex (seq r s) c k = match_regex r c (λ c'. match_regex s c' k)
match_regex (alt r s) c k = let second = match_regex s c k in or_else (match_regex r c k) second
match_regex (star r) c k = greedy (match_regex r) (length c.rest) c k
match_regex (lazy r) c k = reluctant (match_regex r) (length c.rest) c k

pub record Match : Type 0 where
  pub start : Cursor
  pub stop : Cursor

abbrev match_at : Option Cursor → Cursor → Option Match → Option Match
match_at none c later = later
match_at (some stop) c later = some (record { start = c; stop = stop })

-- The leftmost match from a position on.
unfoldable pub search_regex : Regex → Text → Text → Option Match
unfolding match_regex
search_regex r b [] = match_at (match_regex r (cursor b []) some) (cursor b []) none
search_regex r b (x ∷ xs) =
    let later = search_regex r (x ∷ b) xs in
    match_at (match_regex r (cursor b (x ∷ xs)) some) (cursor b (x ∷ xs)) later

-- Several expressions, one after the other, and side by side.
abbrev pub sequence : List Regex → Regex
sequence [] = empty
sequence (r ∷ rs) = seq r (sequence rs)

abbrev pub choice : List Regex → Regex
choice [] = empty
choice (r ∷ []) = r
choice (r ∷ s ∷ rs) = alt r (choice (s ∷ rs))
