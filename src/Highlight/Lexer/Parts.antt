-- ===== src/Highlight/Lexer/Parts.antt =====
-- Each expression of a scanner finds what the lexer finds.
use omarchy_hackertyper.Base.{
  ℕ, zero, suc, ◌≤◌, false, [], ◌∷◌, ◌++◌, append-nil, Option, none, some, ◌==◌, if◌then◌else◌,
  Bool-cases, Text, drop, drop_while, take_while, length, starts_with, subst, ◌≡◌, refl, sym, ap,
  ◌∙◌, arith, inl, inr,
}
use omarchy_hackertyper.Highlight.Lexer.{Found, take_while, until_text, find_block, find_line}
use omarchy_hackertyper.Highlight.Regex.Inversion.{literal, until}
use omarchy_hackertyper.Highlight.Regex.Runs.{
  passed, or_else-none, literal-sequence, greedy_accepted,
}
use omarchy_hackertyper.Highlight.Regex.{
  other_than, any, Regex, set, star, lazy, holds, Cursor, cursor, Rest, reluctant, match_regex,
  sequence,
}
use omarchy_hackertyper.Highlight.Scanner.Compile.{block_regex, line_regex}
use omarchy_hackertyper.Highlight.Tokenize.Shapes.{not_newline}

-- The end of what is found at a place.
abbrev pub stop_of : Text → Option Found → Option Cursor
stop_of b none = none
stop_of b (some f) = some (cursor (passed b f.text) f.rest)

pub passed-append : (b v w : Text) → passed b (v ++ w) ≡ passed (passed b v) w
passed-append b [] w = refl
passed-append b (x ∷ v) w = passed-append (x ∷ b) v w

abbrev pub split_stop : Text → Text × Text → Cursor
split_stop b cut = cursor (passed b cut.0) cut.1

literal-match :
    (l b t : Text)
    → match_regex (sequence (literal l)) (cursor b t) some
      ≡ (if starts_with l t then some (cursor (passed b l) (drop (length l) t)) else none)
literal-match l b t =
    subst
      (λ rs.
        match_regex (sequence rs) (cursor b t) some
        ≡ (if starts_with l t then some (cursor (passed b l) (drop (length l) t)) else none))
      (append-nil (literal l)) (unfold match_regex in literal-sequence l [] b t some)

-- The closing text stands here, or else the end does.
pub until-match :
    (l b : Text) (t : Text)
    → match_regex (sequence (until l ∷ [])) (cursor b t) some ≡ (
        if starts_with l t
        then some (cursor (passed b l) (drop (length l) t))
        else elim t [ [] ↦ some (cursor b []) | x ∷ xs ↦ none ])
unfolding match_regex
until-match l b [] = rw (literal-match l b []) (ground arith)
until-match l b (x ∷ xs) = rw (literal-match l b (x ∷ xs)) (or_else-none _)

any_step :
    (b : Text) (x : ℕ) (xs : Text) (k : Rest)
    → match_regex (set any) (cursor b (x ∷ xs)) k ≡ k (cursor (x ∷ b) xs)
unfolding match_regex holds
any_step b x xs k = refl

pub lazy_step :
    (r s : Regex) (b t : Text)
    → match_regex (sequence (lazy r ∷ s ∷ [])) (cursor b t) some
      ≡ reluctant
          (match_regex r)
          (length t)
          (cursor b t)
          (λ c. match_regex (sequence (s ∷ [])) c some)
unfolding match_regex
lazy_step r s b t = refl

-- The lazy run of any code units up to a closing text.
reluctant_any :
    (l : Text) (n : ℕ) (b t : Text)
    → length t ≤ n
    → reluctant
        (match_regex (set any))
        n
        (cursor b t)
        (λ c. match_regex (sequence (until l ∷ [])) c some)
      ≡ some (split_stop b (until_text l t))
unfolding reluctant
reluctant_any [] zero b [] h = until-match [] b []
reluctant_any (y ∷ l) zero b [] h = until-match (y ∷ l) b []
reluctant_any [] (suc n) b [] h = rw (until-match [] b []) refl
reluctant_any (y ∷ l) (suc n) b [] h = rw (until-match (y ∷ l) b []) refl
reluctant_any l zero b (x ∷ xs) h = absurd (omega arith)
reluctant_any l (suc n) b (x ∷ xs) h = elim (Bool-cases (starts_with l (x ∷ xs))) [
  | inl e ↦ rw (until-match l b (x ∷ xs), e) refl
  | inr e ↦
      let moved : (suc (length xs) == length xs) ≡ false = ground arith in
      rw (until-match l b (x ∷ xs), e, any_step b x xs, moved)
        (reluctant_any l n (x ∷ b) xs (omega arith))
]

pub line-match :
    (l b t : Text) → match_regex (line_regex l) (cursor b t) some ≡ stop_of b (find_line (some l) t)
line-match l b t =
    literal-sequence l (star (set (other_than 10)) ∷ []) b t some
    ∙ elim (Bool-cases (starts_with l t)) [
      | inl e ↦
          let r = drop (length l) t in
          rw e (
            run r
            ∙ ap (λ v. some (cursor v (drop_while not_newline r)))
                (sym (passed-append b l (take_while not_newline r))))
      | inr e ↦ rw e refl
    ]
  where
    run :
        (r : Text)
        → match_regex (sequence (star (set (other_than 10)) ∷ [])) (cursor (passed b l) r) some
          ≡ some
              (cursor (passed (passed b l) (take_while not_newline r)) (drop_while not_newline r))
    run r =
        unfold match_regex holds in
        greedy_accepted (other_than 10) not_newline (length r) (passed b l) r (λ c. some c)
          (λ x. refl) (omega arith) (λ c. refl)

pub block-match :
    (l close_text b t : Text)
    → match_regex (block_regex l close_text) (cursor b t) some
      ≡ stop_of b (find_block (some (l, close_text)) t)
block-match l close_text b t =
    literal-sequence l (lazy (set any) ∷ until close_text ∷ []) b t some
    ∙ elim (Bool-cases (starts_with l t)) [
      | inl e ↦
          let r = drop (length l) t in
          rw e (
            run r
            ∙ ap (λ v. some (cursor v (until_text close_text r).1))
                (sym (passed-append b l (until_text close_text r).0)))
      | inr e ↦ rw e refl
    ]
  where
    run :
        (r : Text)
        → match_regex
            (sequence (lazy (set any) ∷ until close_text ∷ []))
            (cursor (passed b l) r)
            some
          ≡ some (split_stop (passed b l) (until_text close_text r))
    run r =
        lazy_step (set any) (until close_text) (passed b l) r
        ∙ reluctant_any close_text (length r) (passed b l) r (omega arith)
