-- ===== src/Highlight/Tokenize/Shaped.antt =====
-- Every match of a scanner has the shape of its class.
use omarchy_hackertyper.Base.{
  ℕ, true, false, List, [], ◌∷◌, ◌++◌, map, ==_iff, if◌then◌else◌, Text, all, contains,
  text_eq_refl, ◌≡◌, ◌≢◌, ◌⊎◌, refl, ap, ◌∙◌, arith, inl, inr, append-nil,
}
use omarchy_hackertyper.Highlight.Config.{LangConfig, has_keyword}
use omarchy_hackertyper.Highlight.Regex.Inversion.{
  AnyMatch, choice-AnyMatch, AnyMatch-append, literal-Behind, Star-all, plus-all, lazy-Closed,
  until,
}
use omarchy_hackertyper.Highlight.Regex.Sound.{Matches}
use omarchy_hackertyper.Highlight.Regex.{
  Regex, Cursor, is_digit, is_letter, is_word, holds, digit, word_part, lazy, sequence, set, plus,
  single, optional,
}
use omarchy_hackertyper.Highlight.Scanner.Compile.{
  block_regexes, line_regexes, string_regex, number_regex, word_regex, scanner_parts, scanner,
  string_body,
}
use omarchy_hackertyper.Highlight.Scanner.{keyword, string, number, plain, classify}
use omarchy_hackertyper.Highlight.Tokenize.Shapes.{
  Shape, quoted, whole, decimal, identifier, looked_up, is_quote, IsApart, contains-not_word,
  classify_no_comment, block_Shape, line_Shape,
}

module _ (cfg : LangConfig) (apart : IsApart cfg) where
  pub classify_string :
      (q : ℕ) (w : Text) → contains cfg.string_chars (q ∷ []) ≡ true → classify cfg (q ∷ w) ≡ string
  classify_string q w h = ground (arith, classify_no_comment cfg q w apart (inl h))

  pub classify-number : (d : ℕ) (w : Text) → is_digit d ≡ true → classify cfg (d ∷ w) ≡ number
  classify-number d w h =
      let in_word : is_word d ≡ true = ground arith in
      classify_no_comment cfg d w apart (inr in_word)
      ∙ rw (contains-not_word cfg.string_chars d apart.quotes in_word, h) refl

  not_digit : (x : ℕ) → is_letter x ≡ true → is_digit x ≡ false
  not_digit x h = ground arith

  pub classify_name :
      (x : ℕ) (w : Text)
      → is_letter x ≡ true
      → classify cfg (x ∷ w)
        ≡ (if has_keyword cfg.keywords (looked_up cfg (x ∷ w)) then keyword else plain)
  classify_name x w h =
      let in_word : is_word x ≡ true = rw h in
      classify_no_comment cfg x w apart (inr in_word)
      ∙ rw (contains-not_word cfg.string_chars x apart.quotes in_word, not_digit x h) refl

  string_Shape :
      (quotes : List Text) (c : Cursor) (w : Text) (c' : Cursor)
      → all is_quote quotes ≡ true
      → ((t : Text) → contains quotes t ≡ true → contains cfg.string_chars t ≡ true)
      → AnyMatch (map string_regex quotes) c w c'
      → Shape cfg w c' (classify cfg w)
  string_Shape [] c w c' a sub m = absurd m
  string_Shape ([] ∷ qs) c w c' a sub m = cc
  string_Shape ((q ∷ r ∷ s) ∷ qs) c w c' a sub m = cc
  string_Shape ((q ∷ []) ∷ qs) c w c' a sub (inr m) =
      string_Shape qs c w c' (ground arith) (λ t h. sub t (ground arith)) m
  string_Shape ((q ∷ []) ∷ qs) c w c' a sub (inl m) =
      let f = literal-Behind (q ∷ []) (lazy string_body ∷ until (q ∷ []) ∷ []) c w c' m in
      let b = lazy-Closed string_body (q ∷ []) f.from f.tail c' f.matches in
      let s : w ≡ q ∷ (b.body ++ b.tail) = f.splits ∙ ap (◌∷◌ q) b.splits in
      let known : contains cfg.string_chars (q ∷ []) ≡ true =
        sub (q ∷ []) (ground (arith, text_eq_refl (q ∷ []))) in
      quoted q b.body b.tail (rw s (classify_string q (b.body ++ b.tail) known)) known s b.closes

  whole_Shape :
      (d : ℕ) (ds w : Text) (c' : Cursor)
      → w ≡ d ∷ ds
      → all is_digit (d ∷ ds) ≡ true
      → Shape cfg w c' (classify cfg w)
  whole_Shape d ds w c' e h = whole d ds (rw e (classify-number d ds (ground arith))) e (rw e h)

  decimal_Shape :
      (d e : ℕ) (ds es w : Text) (c' : Cursor)
      → w ≡ (d ∷ ds) ++ b'.' ∷ (e ∷ es)
      → all is_digit (d ∷ ds) ≡ true
      → all is_digit (e ∷ es) ≡ true
      → Shape cfg w c' (classify cfg w)
  decimal_Shape d e ds es w c' s h k =
      decimal d e ds es (rw s (classify-number d _ (ground arith))) s h k

  -- The digits and what follows them.
  fraction_Shape :
      (x : ℕ) (xs u₃ w : Text) (c c' c'' : Cursor)
      → w ≡ (x ∷ xs) ++ u₃
      → all is_digit (x ∷ xs) ≡ true
      → Matches (optional (sequence (set (single b'.') ∷ plus (set digit) ∷ []))) c u₃ c'
      → Shape cfg w c'' (classify cfg w)
  unfolding holds
  fraction_Shape x xs u₃ w c c' c'' e h (inr (z, _)) =
      whole_Shape x xs w c'' (rw (e, z) (append-nil (x ∷ xs))) h
  fraction_Shape x xs u₃ w c c' c'' e h
        (inl (p, q, d, e₂, (point, one, is_point), (p₂, q₂, d₂, e₃, digits, (z, _)))) =
      let (y, ys, s, k) = plus-all digit d p₂ d₂ digits in
      decimal_Shape x y xs ys w c''
        (e
          ∙ ap (◌++◌ (x ∷ xs))
              (rw (e₂, one, (==_iff point b'.').0 is_point, e₃, z, append-nil, s) refl))
        h k

  number_Shape :
      (c : Cursor) (w : Text) (c' : Cursor)
      → Matches number_regex c w c'
      → Shape cfg w c' (classify cfg w)
  unfolding holds
  number_Shape c w c'
        (
          u,
          v,
          d,
          e,
          (z, _, _),
          (u₂, v₂, d₂, e₂, digits, (u₃, v₃, d₃, e₃, m, (u₄, v₄, d₄, e₄, (z₄, _, _), (z₅, _)))),
        ) =
      let (x, xs, s, h) = plus-all digit d u₂ d₂ digits in
      fraction_Shape x xs u₃ w d₂ d₃ c' (rw (e, z, e₂, e₃, e₄, z₄, z₅, append-nil, s) refl) h m

  word_Shape :
      (c : Cursor) (w : Text) (c' : Cursor)
      → Matches word_regex c w c'
      → Shape cfg w c' (classify cfg w)
  unfolding holds
  word_Shape c w c' (u, v, d, e, (x, one, letter), (u₂, v₂, d₂, e₂, parts, (z, _))) =
      let s : w ≡ x ∷ u₂ = rw (e, one, e₂, z, append-nil) refl in
      identifier x u₂ (classify_lookup s letter) s letter (Star-all word_part parts)
    where
      classify_lookup :
          w ≡ x ∷ u₂
          → is_letter x ≡ true
          → classify cfg w ≡ (if has_keyword cfg.keywords (looked_up cfg w) then keyword else plain)
      classify_lookup s l = rw s (classify_name x u₂ l)

  parts-ne-nil : scanner_parts cfg ≢ []
  parts-ne-nil e =
      go (block_regexes cfg.block_comment) (line_regexes cfg.line_comment)
        (map string_regex cfg.string_chars) e
    where
      go : (a b d : List Regex) → (a ++ (b ++ (d ++ (number_regex ∷ word_regex ∷ [])))) ≢ []
      go [] [] [] h = cc
      go [] [] (r ∷ d) h = cc
      go [] (r ∷ b) d h = cc
      go (r ∷ a) b d h = cc

  -- Whatever a scanner matches has the shape of the class that it is given.
  pub scanner-Shape :
      (c : Cursor) (w : Text) (c' : Cursor)
      → Matches (scanner cfg) c w c'
      → Shape cfg w c' (classify cfg w)
  scanner-Shape c w c' m = go (
      AnyMatch-append (block_regexes cfg.block_comment) _ c w c'
        (choice-AnyMatch (scanner_parts cfg) c w c' parts-ne-nil m))
    where
      go₃ :
          AnyMatch (map string_regex cfg.string_chars) c w c'
            ⊎ AnyMatch (number_regex ∷ word_regex ∷ []) c w c'
          → Shape cfg w c' (classify cfg w)
      go₃ (inl a) = string_Shape cfg.string_chars c w c' apart.quotes (λ t h. h) a
      go₃ (inr (inl a)) = number_Shape c w c' a
      go₃ (inr (inr (inl a))) = word_Shape c w c' a
      go₃ (inr (inr (inr a))) = absurd a

      go₂ :
          AnyMatch (line_regexes cfg.line_comment) c w c'
            ⊎ AnyMatch
                (map string_regex cfg.string_chars ++ (number_regex ∷ word_regex ∷ []))
                c
                w
                c'
          → Shape cfg w c' (classify cfg w)
      go₂ (inl a) = line_Shape cfg cfg.line_comment c w c' refl a
      go₂ (inr a) = go₃ (AnyMatch-append (map string_regex cfg.string_chars) _ c w c' a)

      go :
          AnyMatch (block_regexes cfg.block_comment) c w c'
            ⊎ AnyMatch
                (line_regexes cfg.line_comment
                  ++ (map string_regex cfg.string_chars ++ (number_regex ∷ word_regex ∷ [])))
                c
                w
                c'
          → Shape cfg w c' (classify cfg w)
      go (inl a) = block_Shape cfg cfg.block_comment c w c' refl a
      go (inr a) = go₂ (AnyMatch-append (line_regexes cfg.line_comment) _ c w c' a)
