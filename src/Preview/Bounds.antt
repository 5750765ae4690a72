-- ===== src/Preview/Bounds.antt =====
-- How much of a text the preview shows.
use omarchy_hackertyper.Base.{
  ℕ, zero, suc, ◌+◌, ◌-◌, ◌≤◌, ◌<◌, max, Bool, true, false, List, [], ◌∷◌, ◌++◌, ◌==◌,
  if◌then◌else◌, Text, length, take, all, drop_while, length-append, length-take, ltb, ◌≡◌, refl,
  arith,
}
use omarchy_hackertyper.Lines.{
  newline, not_newline, split_lines, join_lines, is_space, trim_end, trim,
}
use omarchy_hackertyper.Lines.Laws.{are_lines, split-are_lines}
use omarchy_hackertyper.Number.{Number, number, number_lt, number_sub, math_max, at_least_one}
use omarchy_hackertyper.Preview.{slice_to, ellipsis, first_lines, preview}

at_least_one-number : (k : ℕ) → at_least_one (number k) ≡ number (max 1 k)
unfolding at_least_one
at_least_one-number k = ground arith

less_one : (k : ℕ) → math_max (number 1) (number_sub (number k) (number 1)) ≡ number (max 1 (k - 1))
unfolding math_max number_sub
less_one k = ground arith

number_lt-ltb : (a b : ℕ) → number_lt (number a) (number b) ≡ ltb a b
number_lt-ltb a b = ground arith

-- The preview for a natural limit.
pub preview-number :
    (raw : Text) (line_count : Number) (k : ℕ)
    → preview raw line_count (number k) ≡ (
        let out = first_lines raw line_count in
        if ltb (max 1 k) (length out)
        then trim_end (take (max 1 (max 1 k - 1)) out) ++ ellipsis
        else out)
unfolding preview
preview-number raw line_count k = rw (
  at_least_one-number k,
  less_one (max 1 k),
  number_lt-ltb (max 1 k) (length (first_lines raw line_count)),
)

-- A measure that no part of a text exceeds: a sum over its code units.
abbrev pub weigh : (ℕ → ℕ) → Text → ℕ
weigh f [] = 0
weigh f (x ∷ xs) = f x + weigh f xs

weigh-trim_end : (f : ℕ → ℕ) (s : Text) → weigh f (trim_end s) ≤ weigh f s
unfolding trim_end
weigh-trim_end f [] = omega arith
weigh-trim_end f (x ∷ xs) = ground (arith, weigh-trim_end f xs)

weigh-drop_while : (f : ℕ → ℕ) (p : ℕ → Bool) (s : Text) → weigh f (drop_while p s) ≤ weigh f s
weigh-drop_while f p [] = omega arith
weigh-drop_while f p (x ∷ xs) = ground (arith, weigh-drop_while f p xs)

weigh-trim : (f : ℕ → ℕ) (s : Text) → weigh f (trim s) ≤ weigh f s
unfolding trim
weigh-trim f s =
    omega (arith, weigh-trim_end f (drop_while is_space s), weigh-drop_while f is_space s)

weigh-take : (f : ℕ → ℕ) (n : ℕ) (s : Text) → weigh f (take n s) ≤ weigh f s
weigh-take f zero s = omega arith
weigh-take f (suc n) [] = omega arith
weigh-take f (suc n) (x ∷ xs) = omega (arith, weigh-take f n xs)

weigh-append : (f : ℕ → ℕ) (s t : Text) → weigh f (s ++ t) ≡ weigh f s + weigh f t
weigh-append f [] t = omega arith
weigh-append f (x ∷ s) t = omega (arith, weigh-append f s t)

length-weigh : (s : Text) → length s ≡ weigh (λ _. 1) s
length-weigh [] = refl
length-weigh (x ∷ xs) = omega (arith, length-weigh xs)

length-trim_end : (s : Text) → length (trim_end s) ≤ length s
length-trim_end s =
    omega (arith, length-weigh s, length-weigh (trim_end s), weigh-trim_end (λ _. 1) s)

-- The preview has at most as many code units as its limit, the ellipsis included, but never fewer
-- than two are allowed.
pub length-preview :
    (raw : Text) (line_count : Number) (k : ℕ)
    → length (preview raw line_count (number k)) ≤ max 2 k
length-preview raw line_count k =
    rw (preview-number raw line_count k) (go (first_lines raw line_count))
  where
    go :
        (out : Text)
        → length (
            if ltb (max 1 k) (length out)
            then trim_end (take (max 1 (max 1 k - 1)) out) ++ ellipsis
            else out)
          ≤ max 2 k
    go out =
        let cut = take (max 1 (max 1 k - 1)) out in
        ground (
          arith,
          length-append (trim_end cut) ellipsis,
          length-trim_end cut,
          length-take (max 1 (max 1 k - 1)) out,
        )

abbrev newline_weight : ℕ → ℕ
newline_weight c = if c == newline then 1 else 0

abbrev pub newline_count : Text → ℕ
newline_count = weigh newline_weight

newline_count_line : (l : Text) → all not_newline l ≡ true → newline_count l ≡ 0
newline_count_line [] h = refl
newline_count_line (x ∷ l) h = ground (arith, newline_count_line l)

newline_count-join :
    (ls : List Text) → are_lines ls ≡ true → newline_count (join_lines ls) ≡ length ls - 1
unfolding join_lines
newline_count-join [] h = omega arith
newline_count-join (l ∷ []) h = ground (arith, newline_count_line l)
newline_count-join (l ∷ m ∷ ls) h = ground (
  arith,
  newline_count_line l,
  newline_count-join (m ∷ ls),
  weigh-append newline_weight l (newline ∷ join_lines (m ∷ ls)),
)

take-are_lines : (n : ℕ) (ls : List Text) → are_lines ls ≡ true → are_lines (take n ls) ≡ true
take-are_lines zero ls h = refl
take-are_lines (suc n) [] h = refl
take-are_lines (suc n) (l ∷ ls) h = ground (arith, take-are_lines n ls)

newline_count-first_lines :
    (raw : Text) (n : ℕ) → newline_count (first_lines raw (number n)) < max 1 n
unfolding first_lines
newline_count-first_lines raw n = rw (at_least_one-number n) (
    omega (
      arith,
      weigh-trim newline_weight (join_lines (take (max 1 n) (split_lines raw))),
      newline_count-join (take (max 1 n) (split_lines raw))
          (take-are_lines (max 1 n) (split_lines raw) (split-are_lines raw)),
      length-take (max 1 n) (split_lines raw),
    ))

-- The preview shows at most the requested number of lines, and at most one where that is zero,
-- whatever its limit.
pub newline_count-preview :
    (raw : Text) (n k : ℕ) → newline_count (preview raw (number n) (number k)) < max 1 n
newline_count-preview raw n k =
    rw (preview-number raw (number n) k)
      (go (first_lines raw (number n)) (newline_count-first_lines raw n))
  where
    go :
        (out : Text)
        → newline_count out < max 1 n
        → newline_count (
            if ltb (max 1 k) (length out)
            then trim_end (take (max 1 (max 1 k - 1)) out) ++ ellipsis
            else out)
          < max 1 n
    go out h =
        let cut = take (max 1 (max 1 k - 1)) out in
        ground (
          arith,
          weigh-append newline_weight (trim_end cut) ellipsis,
          weigh-trim_end newline_weight cut,
          weigh-take newline_weight (max 1 (max 1 k - 1)) out,
        )

drop_while_head :
    (p : ℕ → Bool) (s : Text) (x : ℕ) (xs : Text) → drop_while p s ≡ x ∷ xs → p x ≡ false
drop_while_head p [] x xs h = cc
drop_while_head p (y ∷ s) x xs h = ground (arith, drop_while_head p s x xs)

trim_end_head : (s : Text) (x : ℕ) (xs : Text) → trim_end s ≡ x ∷ xs → (ys : Text) × (s ≡ x ∷ ys)
unfolding trim_end
trim_end_head [] x xs h = cc
trim_end_head (y ∷ s) x xs h = (s, ground arith)

trim_head : (s : Text) (x : ℕ) (xs : Text) → trim s ≡ x ∷ xs → is_space x ≡ false
unfolding trim
trim_head s x xs h =
    let (ys, e) = trim_end_head (drop_while is_space s) x xs h in drop_while_head is_space s x ys e

-- With a limit of 1 the preview of anything longer than one code unit has two: the limit is
-- exceeded.
pub preview_over_limit :
    (raw : Text) (line_count : Number)
    → 1 < length (first_lines raw line_count)
    → length (preview raw line_count (number 1)) ≡ 2
preview_over_limit raw line_count h =
    rw (preview-number raw line_count 1) (go (first_lines raw line_count) refl h)
  where
    go :
        (out : Text)
        → first_lines raw line_count ≡ out
        → 1 < length out
        → length (if ltb 1 (length out) then trim_end (take 1 out) ++ ellipsis else out) ≡ 2
    go [] e g = absurd (omega arith)
    go (x ∷ []) e g = absurd (omega arith)
    go (x ∷ y ∷ out) e g =
        let trimmed : trim (join_lines (slice_to (at_least_one line_count) (split_lines raw)))
            ≡ x ∷ y ∷ out =
          unfold first_lines in e in
        let s = trim_head _ x (y ∷ out) trimmed in unfold trim_end in ground arith
