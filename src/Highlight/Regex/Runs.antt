-- ===== src/Highlight/Regex/Runs.antt =====
-- The matcher on the expressions that run through a text in one way only, computed.
use omarchy_hackertyper.Base.{
  ℕ, zero, suc, ◌≤◌, Bool, true, false, List, [], ◌∷◌, ◌++◌, reverse, reverse-cons-append, Option,
  none, some, ◌==◌, if◌then◌else◌, Bool-cases, Text, drop, drop_while, take_while, length,
  starts_with, ◌≡◌, refl, sym, ◌∙◌, arith, inl, inr,
}
use omarchy_hackertyper.Highlight.Regex.Inversion.{literal}
use omarchy_hackertyper.Highlight.Regex.{
  CharSet, digit, Regex, set, holds, Cursor, cursor, Rest, is_digit, first_is_word, or_else, greedy,
  match_regex, sequence,
}

-- The text before a position, when some more text has been passed.
abbrev pub passed : Text → Text → Text
passed b [] = b
passed b (x ∷ w) = passed (x ∷ b) w

pub passed_lem : (b w : Text) → passed b w ≡ reverse w ++ b
passed_lem b [] = refl
passed_lem b (x ∷ w) = passed_lem (x ∷ b) w ∙ sym (reverse-cons-append x w b)

pub or_else-none : (a : Option Cursor) → or_else a none ≡ a
or_else-none none = refl
or_else-none (some c) = refl

-- A literal text is passed over, or there is no match.
pub literal-sequence :
    (l : Text) (rs : List Regex) (b t : Text) (k : Rest)
    → match_regex (sequence (literal l ++ rs)) (cursor b t) k ≡ (
        if starts_with l t
        then match_regex (sequence rs) (cursor (passed b l) (drop (length l) t)) k
        else none)
unfolding match_regex holds
literal-sequence [] rs b t k = refl
literal-sequence (l ∷ ls) rs b [] k = refl
literal-sequence (l ∷ ls) rs b (x ∷ xs) k = ground (arith, literal-sequence ls rs (x ∷ b) xs k)

-- A greedy run of one set takes all that it can, where its continuation accepts every place.
pub greedy_accepted :
    (s : CharSet) (p : ℕ → Bool) (n : ℕ) (b t : Text) (k : Rest)
    → ((x : ℕ) → holds s x ≡ p x)
    → length t ≤ n
    → ((c : Cursor) → k c ≡ some c)
    → greedy (match_regex (set s)) n (cursor b t) k
      ≡ some (cursor (passed b (take_while p t)) (drop_while p t))
unfolding greedy match_regex
greedy_accepted s p zero b [] k h l accepts = accepts (cursor b [])
greedy_accepted s p (suc n) b [] k h l accepts = accepts (cursor b [])
greedy_accepted s p zero b (x ∷ xs) k h l accepts = absurd (omega arith)
greedy_accepted s p (suc n) b (x ∷ xs) k h l accepts = elim (Bool-cases (p x)) [
  | inl e ↦
      let ih = greedy_accepted s p n (x ∷ b) xs k h (omega arith) accepts in
      let moved : (suc (length xs) == length xs) ≡ false = ground arith in
      rw (h x, e, moved, ih) refl
  | inr e ↦ rw (h x, e) (accepts (cursor b (x ∷ xs)))
]

-- Within a word, a greedy run of digits takes all that it can, where its continuation accepts no place
-- between two of them.
pub greedy_digits :
    (n : ℕ) (b t : Text) (k : Rest)
    → first_is_word b ≡ true
    → length t ≤ n
    → ((b' : Text) (x : ℕ) (xs : Text)
        → first_is_word b' ≡ true
        → is_digit x ≡ true
        → k (cursor b' (x ∷ xs)) ≡ none)
    → greedy (match_regex (set digit)) n (cursor b t) k
      ≡ k (cursor (passed b (take_while is_digit t)) (drop_while is_digit t))
unfolding greedy match_regex holds
greedy_digits zero b [] k w l refuses = refl
greedy_digits (suc n) b [] k w l refuses = refl
greedy_digits zero b (x ∷ xs) k w l refuses = absurd (omega arith)
greedy_digits (suc n) b (x ∷ xs) k w l refuses = elim (Bool-cases (is_digit x)) [
  | inl e ↦
      let ih = greedy_digits n (x ∷ b) xs k (ground arith) (omega arith) refuses in
      let moved : (suc (length xs) == length xs) ≡ false = ground arith in
      rw (e, moved, refuses b x xs w e) (or_else-none _ ∙ ih)
  | inr e ↦ rw e refl
]
