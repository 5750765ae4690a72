-- ===== src/Highlight/Lexer/Classes.antt =====
-- What the lexer finds is a piece of the text, and its class is that of `classify`.
use omarchy_hackertyper.Base.{
  ℕ, Bool, true, false, List, [], ◌∷◌, ◌++◌, append_assoc, subst, Option, none, some, ◌==◌, ==_iff,
  if◌then◌else◌, Bool-cases, Text, contains, text_eq_refl, drop, drop_while, take_while,
  take_while-append-drop_while, length, starts_with, starts_with-append, starts_with-drop, ◌≡◌,
  refl, ap, ◌∙◌, arith, inl, inr,
}
use omarchy_hackertyper.Highlight.Config.{LangConfig}
use omarchy_hackertyper.Highlight.Lexer.{
  Found, or_found, until_text, until_quote, find_block, find_line, string_of, find_quoted,
  find_string, number_of, find_fraction, find_number, find_word, find,
}
use omarchy_hackertyper.Highlight.Regex.{is_digit, is_letter, is_word, first_is_word}
use omarchy_hackertyper.Highlight.Scanner.{classify}
use omarchy_hackertyper.Highlight.Tokenize.Shaped.{classify_string, classify-number, classify_name}
use omarchy_hackertyper.Highlight.Tokenize.Shapes.{
  IsApart, classify_block, classify_line, not_newline,
}
use omarchy_hackertyper.Highlight.Lexer.Cuts.{until_text-append, IsCut, until_quote-IsCut}

module _ (cfg : LangConfig) (apart : IsApart cfg) (t : Text) where
  -- A piece of the text, of the class that `classify` gives it.
  abbrev pub IsFound : Option Found → Type 0
  IsFound none = Unit
  IsFound (some f) = (f.text ++ f.rest ≡ t) × (classify cfg f.text ≡ f.type)

  or_found-IsFound : (f g : Option Found) → IsFound f → IsFound g → IsFound (or_found f g)
  or_found-IsFound none g a b = b
  or_found-IsFound (some f) g a b = a

  block-IsFound :
      (block : Option (Text × Text)) → cfg.block_comment ≡ block → IsFound (find_block block t)
  block-IsFound none h = tt
  block-IsFound (some (x, y)) h = elim (Bool-cases (starts_with x t)) [
    | inr e ↦ rw e tt
    | inl e ↦
        let r = drop (length x) t in
        rw e (
          append_assoc x (until_text y r).0 (until_text y r).1
              ∙ ap (◌++◌ x) (until_text-append y r)
              ∙ starts_with-drop x t e,
          classify_block cfg (x ++ (until_text y r).0)
              (rw h (starts_with-append x (until_text y r).0)),
        )
  ]

  line-IsFound : (line : Option Text) → cfg.line_comment ≡ line → IsFound (find_line line t)
  line-IsFound none h = tt
  line-IsFound (some x) h = elim (Bool-cases (starts_with x t)) [
    | inr e ↦ rw e tt
    | inl e ↦
        let r = drop (length x) t in
        rw e (
          append_assoc x (take_while not_newline r) (drop_while not_newline r)
              ∙ ap (◌++◌ x) (take_while-append-drop_while not_newline r)
              ∙ starts_with-drop x t e,
          classify_line cfg (x ++ take_while not_newline r)
              (rw h (starts_with-append x (take_while not_newline r))),
        )
  ]

module _ (cfg : LangConfig) (apart : IsApart cfg) where
  quoted-IsFound :
      (quote t : Text)
      → contains cfg.string_chars quote ≡ true
      → IsFound cfg apart t (find_quoted quote t)
  quoted-IsFound [] t h = tt
  quoted-IsFound (x ∷ y ∷ ys) t h = tt
  quoted-IsFound (q ∷ []) [] h = tt
  quoted-IsFound (q ∷ []) (x ∷ xs) h = elim (Bool-cases (q == x)) [
    | inr e ↦ rw e tt
    | inl e ↦ rw e (go ((==_iff q x).0 e) (until_quote q xs) (until_quote-IsCut q xs))
  ]
    where
      go :
          q ≡ x
          → (o : Option (Text × Text)) → IsCut xs o
          → IsFound cfg apart (x ∷ xs) (string_of q o)
      go e none c = tt
      go e (some cut) c = (ap (◌∷◌ q) c ∙ ap (λ y. y ∷ xs) e, classify_string cfg apart q cut.0 h)

  string-IsFound :
      (quotes : List Text) (t : Text)
      → ((u : Text) → contains quotes u ≡ true → contains cfg.string_chars u ≡ true)
      → IsFound cfg apart t (find_string quotes t)
  string-IsFound [] t sub = tt
  string-IsFound (q ∷ qs) t sub =
      or_found-IsFound cfg apart t (find_quoted q t) (find_string qs t)
        (quoted-IsFound q t (sub q (ground (arith, text_eq_refl q))))
        (string-IsFound qs t (λ u h. sub u (ground arith)))

  number_of-IsFound :
      (d : ℕ) (ds r : Text)
      → is_digit d ≡ true
      → IsFound cfg apart ((d ∷ ds) ++ r) (number_of (d ∷ ds) r)
  number_of-IsFound d ds r h = (refl, classify-number cfg apart d ds h)

  unless-IsFound :
      (b : Bool) (d : ℕ) (ds r : Text)
      → is_digit d ≡ true
      → IsFound cfg apart ((d ∷ ds) ++ r) (if b then none else number_of (d ∷ ds) r)
  unless-IsFound true d ds r h = tt
  unless-IsFound false d ds r h = number_of-IsFound d ds r h

  -- With the digits behind the point, and what follows them.
  point-IsFound :
      (b : Bool) (d x : ℕ) (ds es r u : Text)
      → is_digit d ≡ true
      → es ++ r ≡ u
      → IsFound cfg apart ((d ∷ ds) ++ x ∷ u) (elim es [
        | [] ↦ if is_word x then none else number_of (d ∷ ds) (x ∷ u)
        | e ∷ es' ↦
            if b
            then if is_word x then none else number_of (d ∷ ds) (x ∷ u)
            else number_of ((d ∷ ds) ++ x ∷ (e ∷ es')) r
      ])
  point-IsFound b d x ds [] r u h s = unless-IsFound (is_word x) d ds (x ∷ u) h
  point-IsFound true d x ds (e ∷ es) r u h s = unless-IsFound (is_word x) d ds (x ∷ u) h
  point-IsFound false d x ds (e ∷ es) r u h s = (
    append_assoc (d ∷ ds) (x ∷ (e ∷ es)) r ∙ ap (λ v. (d ∷ ds) ++ x ∷ v) s,
    classify-number cfg apart d (ds ++ x ∷ (e ∷ es)) h,
  )

  fraction-IsFound :
      (d : ℕ) (ds r : Text)
      → is_digit d ≡ true
      → IsFound cfg apart ((d ∷ ds) ++ r) (find_fraction (d ∷ ds) r)
  fraction-IsFound d ds [] h = number_of-IsFound d ds [] h
  fraction-IsFound d ds (x ∷ xs) h = elim (Bool-cases (x == b'.')) [
    | inr e ↦ rw e (unless-IsFound (is_word x) d ds (x ∷ xs) h)
    | inl e ↦ rw e (
        point-IsFound (first_is_word (drop_while is_digit xs)) d x ds (take_while is_digit xs)
          (drop_while is_digit xs) xs h (take_while-append-drop_while is_digit xs))
  ]

  number-IsFound : (before t : Text) → IsFound cfg apart t (find_number before t)
  number-IsFound before [] = tt
  number-IsFound before (x ∷ xs) = elim (Bool-cases (first_is_word before)) [
    | inl e ↦ rw e tt
    | inr e ↦ elim (Bool-cases (is_digit x)) [
      | inr d ↦ rw (e, d) tt
      | inl d ↦
          rw (e, d)
            (subst
              (λ u.
                IsFound cfg apart (x ∷ u)
                  (find_fraction (x ∷ take_while is_digit xs) (drop_while is_digit xs)))
              (take_while-append-drop_while is_digit xs)
              (fraction-IsFound x (take_while is_digit xs) (drop_while is_digit xs) d))
    ]
  ]

  word-IsFound : (t : Text) → IsFound cfg apart t (find_word cfg t)
  word-IsFound [] = tt
  word-IsFound (x ∷ xs) = elim (Bool-cases (is_letter x)) [
    | inr e ↦ rw e tt
    | inl e ↦ rw e (
      ap (◌∷◌ x) (take_while-append-drop_while is_word xs),
      classify_name cfg apart x (take_while is_word xs) e,
    )
  ]

  -- All that the lexer finds is a piece of the text, with its class.
  pub find-IsFound : (before t : Text) → IsFound cfg apart t (find cfg before t)
  unfolding find
  find-IsFound before t =
      let or = or_found-IsFound cfg apart t in
      or (find_block cfg.block_comment t) _ (block-IsFound cfg apart t cfg.block_comment refl) (
        or (find_line cfg.line_comment t) _ (line-IsFound cfg apart t cfg.line_comment refl) (
          or (find_string cfg.string_chars t) _ (string-IsFound cfg.string_chars t (λ u h. h)) (
            or (find_number before t) (find_word cfg t) (number-IsFound before t)
              (word-IsFound t))))
