-- ===== src/Highlight/Lexer/Strings.antt =====
-- The expression of a string finds what the lexer finds.
use omarchy_hackertyper.Base.{
  ℕ, zero, suc, ◌≤◌, Bool, true, false, [], ◌∷◌, Option, none, some, ◌==◌, if◌then◌else◌,
  Bool-cases, Text, length, ◌≡◌, refl, sym, ◌∙◌, arith, inl, inr,
}
use omarchy_hackertyper.Highlight.Lexer.{with_firsts, until_quote, find_quoted, string_of}
use omarchy_hackertyper.Highlight.Regex.Inversion.{until}
use omarchy_hackertyper.Highlight.Regex.Runs.{or_else-none, literal-sequence}
use omarchy_hackertyper.Highlight.Regex.{
  lazy, holds, is_line_end, Cursor, cursor, Rest, reluctant, match_regex, sequence,
}
use omarchy_hackertyper.Highlight.Scanner.Compile.{string_body, string_regex}
use omarchy_hackertyper.Highlight.Lexer.Parts.{stop_of, split_stop, until-match, lazy_step}

-- A string's inside.
abbrev pub inside_stop : Text → Option (Text × Text) → Option Cursor
inside_stop b none = none
inside_stop b (some cut) = some (split_stop b cut)

body_end : (b : Text) (k : Rest) → match_regex string_body (cursor b []) k ≡ none
unfolding match_regex holds
body_end b k = refl

body_step :
    (b : Text) (x y : ℕ) (ys : Text) (k : Rest)
    → match_regex string_body (cursor b (x ∷ y ∷ ys)) k ≡ (
        if x == b'\\'
        then if is_line_end y then none else k (cursor (y ∷ x ∷ b) ys)
        else k (cursor (x ∷ b) (y ∷ ys)))
unfolding match_regex holds
body_step b x y ys k = elim (Bool-cases (x == b'\\')) [
  | inl e ↦ rw e (or_else-none _ ∙ ground arith)
  | inr e ↦ rw e refl
]

body_last :
    (b : Text) (x : ℕ) (k : Rest)
    → match_regex string_body (cursor b (x ∷ [])) k
      ≡ (if x == b'\\' then none else k (cursor (x ∷ b) []))
unfolding match_regex holds
body_last b x k = elim (Bool-cases (x == b'\\')) [ inl e ↦ rw e refl | inr e ↦ rw e refl ]

inside_stop_first :
    (b : Text) (x : ℕ) (o : Option (Text × Text))
    → inside_stop b (with_firsts x o) ≡ inside_stop (x ∷ b) o
inside_stop_first b x none = refl
inside_stop_first b x (some cut) = refl

escaped_lem :
    (b : Text) (x y : ℕ) (escaped unescaped : Option (Text × Text)) (p r : Bool)
    → (if p
        then if r then none else inside_stop (y ∷ x ∷ b) escaped
        else inside_stop (x ∷ b) unescaped)
      ≡ inside_stop b (
          if p
          then if r then none else with_firsts x (with_firsts y escaped)
          else with_firsts x unescaped)
escaped_lem b x y escaped unescaped true true = refl
escaped_lem b x y escaped unescaped true false =
    sym (inside_stop_first b x (with_firsts y escaped) ∙ inside_stop_first (x ∷ b) y escaped)
escaped_lem b x y escaped unescaped false r = sym (inside_stop_first b x unescaped)

reluctant_body :
    (q : ℕ) (n : ℕ) (b t : Text)
    → length t ≤ n
    → reluctant
        (match_regex string_body)
        n
        (cursor b t)
        (λ c. match_regex (sequence (until (q ∷ []) ∷ [])) c some)
      ≡ inside_stop b (until_quote q t)
unfolding reluctant
reluctant_body q zero b [] h = until-match (q ∷ []) b []
reluctant_body q (suc n) b [] h = rw (until-match (q ∷ []) b []) refl
reluctant_body q zero b (x ∷ xs) h = absurd (omega arith)
reluctant_body q (suc n) b (x ∷ []) h = elim (Bool-cases (q == x)) [
  | inl e ↦ rw (until-match (q ∷ []) b (x ∷ []), e) refl
  | inr e ↦
      rw
        (
          until-match (q ∷ []) b (x ∷ []),
          e,
          body_last b x,
          reluctant_body q n (x ∷ b) [] (omega arith),
        )
        (ground arith)
]
reluctant_body q (suc n) b (x ∷ y ∷ ys) h = elim (Bool-cases (q == x)) [
  | inl e ↦ rw (until-match (q ∷ []) b (x ∷ y ∷ ys), e) refl
  | inr e ↦
      let moved : (suc (suc (length ys)) == suc (length ys)) ≡ false = ground arith in
      let moved_on : (suc (suc (length ys)) == length ys) ≡ false = ground arith in
      rw
        (
          until-match (q ∷ []) b (x ∷ y ∷ ys),
          e,
          body_step b x y ys,
          moved,
          moved_on,
          reluctant_body q n (x ∷ b) (y ∷ ys) (omega arith),
          reluctant_body q n (y ∷ x ∷ b) ys (omega arith),
        )
        (escaped_lem b x y (until_quote q ys) (until_quote q (y ∷ ys)) (x == b'\\') (is_line_end y))
]

inside_stop-stop_of :
    (q : ℕ) (b : Text) (o : Option (Text × Text))
    → inside_stop (q ∷ b) o ≡ stop_of b (string_of q o)
inside_stop-stop_of q b none = refl
inside_stop-stop_of q b (some cut) = refl

pub string-match :
    (q : ℕ) (b t : Text)
    → match_regex (string_regex (q ∷ [])) (cursor b t) some ≡ stop_of b (find_quoted (q ∷ []) t)
string-match q b [] = literal-sequence (q ∷ []) (lazy string_body ∷ until (q ∷ []) ∷ []) b [] some
string-match q b (x ∷ xs) =
    literal-sequence (q ∷ []) (lazy string_body ∷ until (q ∷ []) ∷ []) b (x ∷ xs) some
    ∙ elim (Bool-cases (q == x)) [
      | inl e ↦ rw e (
          lazy_step string_body (until (q ∷ [])) (q ∷ b) xs
          ∙ reluctant_body q (length xs) (q ∷ b) xs (omega arith)
          ∙ inside_stop-stop_of q b (until_quote q xs))
      | inr e ↦ rw e refl
    ]
