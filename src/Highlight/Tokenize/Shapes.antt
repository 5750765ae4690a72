-- ===== src/Highlight/Tokenize/Shapes.antt =====
-- The class of a token says what its text looks like.
use omarchy_hackertyper.Base.{
  ℕ, Bool, true, false, not, ◌&&◌, List, [], ◌∷◌, ◌++◌, Option, none, some, ◌==◌, ==_iff,
  if◌then◌else◌, Bool-cases, Text, all, contains, starts_with, starts_with-append, ◌≡◌, ◌⊎◌, refl,
  ap, ◌∙◌, arith, inl, inr, append-nil,
}
use omarchy_hackertyper.Highlight.Config.{LangConfig, has_keyword}
use omarchy_hackertyper.Highlight.Regex.Inversion.{
  AnyMatch, literal-Behind, Star-all, Closes, lazy-Closed, until,
}
use omarchy_hackertyper.Highlight.Regex.Sound.{Matches}
use omarchy_hackertyper.Highlight.Regex.{
  Cursor, is_digit, is_letter, is_word, holds, other_than, sequence, set, star, lazy, any,
}
use omarchy_hackertyper.Highlight.Scanner.Compile.{block_regexes, line_regexes}
use omarchy_hackertyper.Highlight.Scanner.{
  TokenType, keyword, string, comment, number, plain, opens_block, opens_line, to_lower, classify,
}

abbrev pub not_newline : ℕ → Bool
not_newline c = not (c == 10)

abbrev pub looked_up : LangConfig → Text → Text
looked_up cfg w = if cfg.case_insensitive then to_lower w else w

-- What a matched text `w` that ends at `c'` may look like in each class.
pub data Shape (cfg : LangConfig) (w : Text) (c' : Cursor) (type : TokenType) : Type 0 where
  block :
      (open_text close_text body tail : Text)
      → type ≡ comment
      → cfg.block_comment ≡ some (open_text, close_text)
      → w ≡ open_text ++ (body ++ tail)
      → Closes close_text tail c'
      → Shape cfg w c' type
  line :
      (text body : Text)
      → type ≡ comment
      → cfg.line_comment ≡ some text
      → w ≡ text ++ body
      → all not_newline body ≡ true
      → Shape cfg w c' type
  quoted :
      (quote : ℕ) (body tail : Text)
      → type ≡ string
      → contains cfg.string_chars (quote ∷ []) ≡ true
      → w ≡ quote ∷ (body ++ tail)
      → Closes (quote ∷ []) tail c'
      → Shape cfg w c' type
  whole :
      (d : ℕ) (ds : Text) → type ≡ number → w ≡ d ∷ ds → all is_digit w ≡ true → Shape cfg w c' type
  decimal :
      (d e : ℕ) (ds es : Text)
      → type ≡ number
      → w ≡ (d ∷ ds) ++ b'.' ∷ (e ∷ es)
      → all is_digit (d ∷ ds) ≡ true
      → all is_digit (e ∷ es) ≡ true
      → Shape cfg w c' type
  identifier :
      (x : ℕ) (xs : Text)
      → type ≡ (if has_keyword cfg.keywords (looked_up cfg w) then keyword else plain)
      → w ≡ x ∷ xs
      → is_letter x ≡ true
      → all is_word xs ≡ true
      → Shape cfg w c' type

-- Comments open by a character that neither quotes nor stands in a word; quotes are single
-- characters that stand in no word.
abbrev pub opens_apart : List Text → Text → Bool
opens_apart quotes [] = false
opens_apart quotes (x ∷ xs) = not (contains quotes (x ∷ [])) && not (is_word x)

abbrev pub is_quote : Text → Bool
is_quote [] = false
is_quote (q ∷ []) = not (is_word q)
is_quote (q ∷ x ∷ xs) = false

abbrev pub block_apart : List Text → Option (Text × Text) → Bool
block_apart quotes none = true
block_apart quotes (some (open_text, close_text)) = opens_apart quotes open_text

abbrev pub line_apart : List Text → Option Text → Bool
line_apart quotes none = true
line_apart quotes (some text) = opens_apart quotes text

pub record IsApart (cfg : LangConfig) : Type 0 where
  pub blocks : block_apart cfg.string_chars cfg.block_comment ≡ true
  pub lines : line_apart cfg.string_chars cfg.line_comment ≡ true
  pub quotes : all is_quote cfg.string_chars ≡ true

-- No comment opens by a code unit that quotes or stands in a word.
starts_with_apart :
    (quotes : List Text) (open_text w : Text) (x : ℕ)
    → opens_apart quotes open_text ≡ true
    → (contains quotes (x ∷ []) ≡ true) ⊎ (is_word x ≡ true)
    → starts_with open_text (x ∷ w) ≡ false
starts_with_apart quotes [] w x a m = cc
starts_with_apart quotes (y ∷ ys) w x a m = elim (Bool-cases (y == x)) [
  | inr e ↦ rw e
  | inl e ↦ absurd (go ((==_iff y x).0 e) m)
]
  where
    go : y ≡ x → (contains quotes (x ∷ []) ≡ true) ⊎ (is_word x ≡ true) → ⊥
    go e (inl q) = ground (arith, rw e at a)
    go e (inr q) = ground (arith, rw e at a)

pub contains-not_word :
    (quotes : List Text) (x : ℕ)
    → all is_quote quotes ≡ true
    → is_word x ≡ true
    → contains quotes (x ∷ []) ≡ false
contains-not_word [] x a h = refl
contains-not_word ([] ∷ qs) x a h = cc
contains-not_word ((q ∷ []) ∷ qs) x a h = elim (Bool-cases (q == x)) [
  | inl e ↦ absurd (ground (arith, (==_iff q x).0 e))
  | inr e ↦ rw e (contains-not_word qs x (ground arith) h)
]
contains-not_word ((q ∷ r ∷ s) ∷ qs) x a h = cc

module _ (cfg : LangConfig) where
  pub classify_block :
      (w : Text) → opens_block cfg.block_comment w ≡ true → classify cfg w ≡ comment
  unfolding classify
  classify_block w h = ground arith

  pub classify_line : (w : Text) → opens_line cfg.line_comment w ≡ true → classify cfg w ≡ comment
  unfolding classify
  classify_line w h = ground arith

  no_block :
      (b : Option (Text × Text)) (x : ℕ) (w : Text)
      → block_apart cfg.string_chars b ≡ true
      → (contains cfg.string_chars (x ∷ []) ≡ true) ⊎ (is_word x ≡ true)
      → opens_block b (x ∷ w) ≡ false
  no_block none x w a m = refl
  no_block (some (o, c)) x w a m = starts_with_apart cfg.string_chars o w x a m

  no_line :
      (b : Option Text) (x : ℕ) (w : Text)
      → line_apart cfg.string_chars b ≡ true
      → (contains cfg.string_chars (x ∷ []) ≡ true) ⊎ (is_word x ≡ true)
      → opens_line b (x ∷ w) ≡ false
  no_line none x w a m = refl
  no_line (some o) x w a m = starts_with_apart cfg.string_chars o w x a m

  -- The class of a match that opens no comment.
  pub classify_no_comment :
      (x : ℕ) (w : Text)
      → IsApart cfg
      → (contains cfg.string_chars (x ∷ []) ≡ true) ⊎ (is_word x ≡ true)
      → classify cfg (x ∷ w) ≡ (
          if contains cfg.string_chars (x ∷ [])
          then string
          else if is_digit x
          then number
          else if has_keyword cfg.keywords (looked_up cfg (x ∷ w))
          then keyword
          else plain)
  unfolding classify
  classify_no_comment x w a m =
      rw (no_block cfg.block_comment x w a.blocks m, no_line cfg.line_comment x w a.lines m)

  pub block_Shape :
      (b : Option (Text × Text)) (c : Cursor) (w : Text) (c' : Cursor)
      → cfg.block_comment ≡ b
      → AnyMatch (block_regexes b) c w c'
      → Shape cfg w c' (classify cfg w)
  block_Shape none c w c' e m = absurd m
  block_Shape (some (o, cl)) c w c' e (inr m) = absurd m
  block_Shape (some (o, cl)) c w c' e (inl m) =
      let f = literal-Behind o (lazy (set any) ∷ until cl ∷ []) c w c' m in
      let b = lazy-Closed (set any) cl f.from f.tail c' f.matches in
      let s : w ≡ o ++ (b.body ++ b.tail) = f.splits ∙ ap (◌++◌ o) b.splits in
      block o cl b.body b.tail
        (classify_block w (rw (e, s) (starts_with-append o (b.body ++ b.tail)))) e s b.closes

  pub line_Shape :
      (b : Option Text) (c : Cursor) (w : Text) (c' : Cursor)
      → cfg.line_comment ≡ b
      → AnyMatch (line_regexes b) c w c'
      → Shape cfg w c' (classify cfg w)
  line_Shape none c w c' e m = absurd m
  line_Shape (some t) c w c' e (inr m) = absurd m
  line_Shape (some t) c w c' e (inl m) =
      let f = literal-Behind t (star (set (other_than 10)) ∷ []) c w c' m in
      line t f.tail (classify_line w (rw (e, f.splits) (starts_with-append t f.tail))) e f.splits
        (line_body f.from f.tail c' f.matches)
    where
      line_body :
          (d : Cursor) (v : Text) (d' : Cursor)
          → Matches (sequence (star (set (other_than 10)) ∷ [])) d v d'
          → all not_newline v ≡ true
      line_body d v d' (u, u', f, e, m, (z, _)) =
          rw (e, z, append-nil) (unfold holds in Star-all (other_than 10) m)
