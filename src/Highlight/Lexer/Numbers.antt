-- ===== src/Highlight/Lexer/Numbers.antt =====
-- The expressions of a number and of a word find what the lexer finds.
use omarchy_hackertyper.Base.{
  ℕ, true, false, [], ◌∷◌, none, some, ◌==◌, if◌then◌else◌, Bool-cases, Text, drop_while,
  take_while, length, ◌≡◌, refl, sym, ap, ◌∙◌, arith, inl, inr,
}
use omarchy_hackertyper.Highlight.Config.{LangConfig}
use omarchy_hackertyper.Highlight.Lexer.Parts.{stop_of, passed-append}
use omarchy_hackertyper.Highlight.Lexer.{find_fraction, find_number, find_word, number_of}
use omarchy_hackertyper.Highlight.Regex.Runs.{passed, greedy_accepted, greedy_digits}
use omarchy_hackertyper.Highlight.Regex.{
  single, digit, word_part, Regex, set, boundary, plus, optional, holds, is_digit, is_word,
  is_letter, first_is_word, is_boundary, cursor, Rest, or_else, greedy, match_regex, sequence,
}
use omarchy_hackertyper.Highlight.Scanner.Compile.{number_regex, word_regex}

pub word-match :
    (cfg : LangConfig) (b t : Text)
    → match_regex word_regex (cursor b t) some ≡ stop_of b (find_word cfg t)
unfolding match_regex holds
word-match cfg b [] = refl
word-match cfg b (x ∷ xs) = elim (Bool-cases (is_letter x)) [
  | inl e ↦
      let run : greedy (match_regex (set word_part)) (length xs) (cursor (x ∷ b) xs) (λ c. some c)
          ≡ some (cursor (passed (x ∷ b) (take_while is_word xs)) (drop_while is_word xs)) =
        greedy_accepted word_part is_word (length xs) (x ∷ b) xs (λ c. some c) (λ y. refl)
          (omega arith) (λ c. refl) in
      rw e run
  | inr e ↦ rw e refl
]

passed_digits :
    (b t : Text) → first_is_word b ≡ true → first_is_word (passed b (take_while is_digit t)) ≡ true
passed_digits b [] h = h
passed_digits b (x ∷ xs) h = elim (Bool-cases (is_digit x)) [
  | inl e ↦ rw e (passed_digits (x ∷ b) xs (ground arith))
  | inr e ↦ rw e h
]

-- At the end of a number.
at_boundary : Rest
at_boundary c = match_regex (sequence (boundary ∷ [])) c some

at_boundary_lem :
    (b t : Text)
    → first_is_word b ≡ true
    → at_boundary (cursor b t) ≡ (if first_is_word t then none else some (cursor b t))
unfolding at_boundary match_regex is_boundary
at_boundary_lem b t h = rw h (ground arith)

abbrev fraction : Regex
fraction = sequence (set (single b'.') ∷ plus (set digit) ∷ [])

-- Behind the digits in front of a point.
behind_digits : Rest
behind_digits c = match_regex (sequence (optional fraction ∷ boundary ∷ [])) c some

fraction_step :
    (b : Text) (y : ℕ) (ys : Text)
    → behind_digits (cursor b (y ∷ ys))
      ≡ or_else
          (if y == b'.'
            then match_regex (plus (set digit)) (cursor (y ∷ b) ys) at_boundary
            else none)
          (at_boundary (cursor b (y ∷ ys)))
unfolding behind_digits at_boundary match_regex holds
fraction_step b y ys = refl

plus_step :
    (b : Text) (z : ℕ) (zs : Text) (k : Rest)
    → match_regex (plus (set digit)) (cursor b (z ∷ zs)) k ≡ (
        if is_digit z
        then greedy (match_regex (set digit)) (length zs) (cursor (z ∷ b) zs) k
        else none)
unfolding match_regex holds
plus_step b z zs k = refl

plus_end : (b : Text) (k : Rest) → match_regex (plus (set digit)) (cursor b []) k ≡ none
unfolding match_regex holds
plus_end b k = refl

plus_digits :
    (b : Text) (z : ℕ) (zs : Text)
    → is_digit z ≡ true
    → match_regex (plus (set digit)) (cursor b (z ∷ zs)) at_boundary ≡ (
        if first_is_word (drop_while is_digit zs)
        then none
        else some (cursor (passed (z ∷ b) (take_while is_digit zs)) (drop_while is_digit zs)))
plus_digits b z zs h =
    rw (plus_step b z zs at_boundary, h)
      (greedy_digits (length zs) (z ∷ b) zs at_boundary (ground arith) (omega arith)
          (λ b' x xs w d. at_boundary_lem b' (x ∷ xs) w ∙ ground arith)
        ∙ at_boundary_lem (passed (z ∷ b) (take_while is_digit zs)) (drop_while is_digit zs)
            (passed_digits (z ∷ b) zs (ground arith)))

whole_lem :
    (ds b r : Text)
    → first_is_word (passed b ds) ≡ true
    → at_boundary (cursor (passed b ds) r)
      ≡ stop_of b (if first_is_word r then none else number_of ds r)
whole_lem ds b r h =
    at_boundary_lem (passed b ds) r h
    ∙ elim (Bool-cases (first_is_word r)) [ inl e ↦ rw e refl | inr e ↦ rw e refl ]

behind_point :
    (ds b : Text) (y : ℕ) (ys : Text)
    → first_is_word (passed b ds) ≡ true
    → (y == b'.') ≡ true
    → or_else
        (match_regex (plus (set digit)) (cursor (y ∷ passed b ds) ys) at_boundary)
        (at_boundary (cursor (passed b ds) (y ∷ ys)))
      ≡ stop_of b (find_fraction ds (y ∷ ys))
behind_point ds b y [] h e =
    rw (plus_end (y ∷ passed b ds) at_boundary, e) (whole_lem ds b (y ∷ []) h)
behind_point ds b y (z ∷ zs) h e = elim (Bool-cases (is_digit z)) [
  | inr d ↦ rw (plus_step (y ∷ passed b ds) z zs at_boundary, d, e) (whole_lem ds b (y ∷ z ∷ zs) h)
  | inl d ↦ elim (Bool-cases (first_is_word (drop_while is_digit zs))) [
    | inl w ↦ rw (plus_digits (y ∷ passed b ds) z zs d, d, d, e, w) (whole_lem ds b (y ∷ z ∷ zs) h)
    | inr w ↦
        rw (plus_digits (y ∷ passed b ds) z zs d, d, d, e, w)
          (ap (λ v. some (cursor v (drop_while is_digit zs)))
            (sym (passed-append b ds (y ∷ (z ∷ take_while is_digit zs)))))
  ]
]

behind_digits_lem :
    (ds b r : Text)
    → first_is_word (passed b ds) ≡ true
    → behind_digits (cursor (passed b ds) r) ≡ stop_of b (find_fraction ds r)
behind_digits_lem ds b [] h = unfold behind_digits at_boundary match_regex in whole_lem ds b [] h
behind_digits_lem ds b (y ∷ ys) h =
    fraction_step (passed b ds) y ys ∙ elim (Bool-cases (y == b'.')) [
      | inl e ↦
          ap
            (λ p.
              or_else
                (if p
                  then match_regex (plus (set digit)) (cursor (y ∷ passed b ds) ys) at_boundary
                  else none)
                (at_boundary (cursor (passed b ds) (y ∷ ys))))
            e
          ∙ behind_point ds b y ys h e
      | inr e ↦ rw e (whole_lem ds b (y ∷ ys) h)
    ]

number_step :
    (b t : Text)
    → match_regex number_regex (cursor b t) some ≡ (
        if is_boundary (cursor b t)
        then match_regex (plus (set digit)) (cursor b t) behind_digits
        else none)
unfolding match_regex behind_digits
number_step b t = refl

behind_digits_refuses :
    (b : Text) (x : ℕ) (xs : Text)
    → first_is_word b ≡ true
    → is_digit x ≡ true
    → behind_digits (cursor b (x ∷ xs)) ≡ none
behind_digits_refuses b x xs w d =
    let no_point : (x == b'.') ≡ false = ground arith in
    let in_word : is_word x ≡ true = ground arith in
    fraction_step b x xs ∙ rw (no_point) (at_boundary_lem b (x ∷ xs) w ∙ rw in_word refl)

pub number-match :
    (b t : Text) → match_regex number_regex (cursor b t) some ≡ stop_of b (find_number b t)
number-match b [] = number_step b [] ∙ rw (plus_end b behind_digits) (ground arith)
number-match b (x ∷ xs) = number_step b (x ∷ xs) ∙ elim (Bool-cases (is_digit x)) [
  | inr d ↦ rw (plus_step b x xs behind_digits, d) (ground arith)
  | inl d ↦
      let in_word : is_word x ≡ true = ground arith in
      elim (Bool-cases (first_is_word b)) [
        | inl w ↦ unfold is_boundary in rw (w, in_word) refl
        | inr w ↦
            unfold is_boundary in
            rw (w, in_word, plus_step b x xs behind_digits, d)
              (greedy_digits (length xs) (x ∷ b) xs behind_digits in_word (omega arith)
                  behind_digits_refuses
                ∙ behind_digits_lem (x ∷ take_while is_digit xs) b (drop_while is_digit xs)
                    (passed_digits (x ∷ b) xs in_word))
      ]
]
