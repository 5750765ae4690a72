-- ===== src/Highlight/Tokenize/Tokens.antt =====
-- The tokens of `tokenize`, for the languages of the table and for the fallback.
use omarchy_hackertyper.Base.{
  Bool, true, false, ◌||◌, List, [], ◌∷◌, ◌++◌, some, Bool-cases, Text, contains, text_eq,
  text_eq_iff, ◌≡◌, ◌≢◌, ◌⊎◌, refl, sym, ◌∙◌, arith, inl, inr,
}
use omarchy_hackertyper.Highlight.Config.{LangConfig, inherited_names, has_keyword, KeywordSet}
use omarchy_hackertyper.Highlight.Regex.Search.{NeverEmpty, AllSkip}
use omarchy_hackertyper.Highlight.Tokenize.Words.{scanner-Catches}
use omarchy_hackertyper.Highlight.Regex.{Cursor, is_letter}
use omarchy_hackertyper.Highlight.Scanner.Compile.{scanner}
use omarchy_hackertyper.Highlight.Scanner.{Cache, keyword, plain, classify}
use omarchy_hackertyper.Highlight.Tokenize.Apart.{Selected-IsApart}
use omarchy_hackertyper.Highlight.Tokenize.Cached.{IsValid, Selected, tokenize-Tokenized}
use omarchy_hackertyper.Highlight.Tokenize.Lossless.{
  text_of, token_of, Scanned, done, hit, Scanned-text_of,
}
use omarchy_hackertyper.Highlight.Tokenize.Shaped.{scanner-Shape, classify_name}
use omarchy_hackertyper.Highlight.Tokenize.Shapes.{
  Shape, block, line, quoted, whole, decimal, identifier, looked_up, IsApart, opens_apart,
}
use omarchy_hackertyper.Highlight.Tokenize.{Token, rest_token, tokenize}

-- A token is unmatched text without letters, or it has the shape of its class in front of the text that follows it.
abbrev pub TokenShape : LangConfig → Token → Text → Type 0
TokenShape cfg t following =
    ((t.type ≡ plain) × AllSkip is_letter t.text)
    ⊎ ((c : Cursor) × (c.rest ≡ following) × Shape cfg t.text c t.type)

abbrev pub AllShaped : LangConfig → List Token → Type 0
AllShaped cfg [] = Unit
AllShaped cfg (t ∷ ts) = TokenShape cfg t (text_of ts) × (t.text ≢ []) × AllShaped cfg ts

append-ne-nil : (t u : Text) → t ≢ [] → (t ++ u) ≢ []
append-ne-nil [] u h e = h refl
append-ne-nil (x ∷ t) u h e = cc

opens_apart-ne-nil : (quotes : List Text) (t : Text) → opens_apart quotes t ≡ true → t ≢ []
opens_apart-ne-nil quotes [] h e = cc
opens_apart-ne-nil quotes (x ∷ t) h e = cc

-- No match is empty.
Shape-ne-nil :
    (cfg : LangConfig) (w : Text) (c : Cursor)
    → IsApart cfg
    → Shape cfg w c (classify cfg w)
    → w ≢ []
Shape-ne-nil cfg w c a (block o cl b t _ e s _) z =
    append-ne-nil o (b ++ t) (opens_apart-ne-nil cfg.string_chars o (rw e at a.blocks)) (sym s ∙ z)
Shape-ne-nil cfg w c a (line t b _ e s _) z =
    append-ne-nil t b (opens_apart-ne-nil cfg.string_chars t (rw e at a.lines)) (sym s ∙ z)
Shape-ne-nil cfg w c a (quoted q b t _ _ s _) z = cc
Shape-ne-nil cfg w c a (whole d ds _ s _) z = cc
Shape-ne-nil cfg w c a (decimal d e ds es _ s _ _) z = ground arith
Shape-ne-nil cfg w c a (identifier x xs _ s _ _) z = cc

rest_token-AllShaped :
    (cfg : LangConfig) (s : Text) (ts : List Token)
    → AllSkip is_letter s
    → AllShaped cfg ts
    → AllShaped cfg (rest_token s ++ ts)
rest_token-AllShaped cfg [] ts k a = a
rest_token-AllShaped cfg (x ∷ xs) ts k a = (inl (refl, k), (λ e. cc), a)

pub scanner-NeverEmpty : (cfg : LangConfig) → IsApart cfg → NeverEmpty (scanner cfg)
scanner-NeverEmpty cfg a c w c' m = Shape-ne-nil cfg w c' a (scanner-Shape cfg a c w c' m)

Scanned-AllShaped :
    {cfg : LangConfig} {c : Cursor} {ts : List Token}
    → IsApart cfg
    → Scanned cfg (scanner cfg) c ts
    → AllShaped cfg ts
Scanned-AllShaped {cfg} {c} a (done e clean) =
    rw e (rest_end c.rest (clean is_letter (scanner-Catches cfg) (scanner-NeverEmpty cfg a)))
  where
    rest_end : (s : Text) → AllSkip is_letter s → AllShaped cfg (rest_token s)
    rest_end [] k = tt
    rest_end (x ∷ xs) k = (inl (refl, k), (λ e. cc), tt)
Scanned-AllShaped {cfg} a (hit skipped start match stop later _ _ m clean e rest) =
    let shape = scanner-Shape cfg a start match stop m in
    rw e (
      rest_token-AllShaped cfg skipped (token_of cfg match ∷ later)
        (clean is_letter (scanner-Catches cfg) (scanner-NeverEmpty cfg a))
        (
          inr (stop, sym (Scanned-text_of rest), shape),
          Shape-ne-nil cfg match stop a shape,
          Scanned-AllShaped a rest,
        ))

-- For every text, every valid cache and every language name that no object inherits, each token of
-- `tokenize` is a piece of unmatched text, of class plain, which has no letter and no underscore, or has the shape
-- of its class: a comment begins with a comment opener, and holds no newline if it is a line
-- comment; a string begins with a quote; a block comment or a string ends with its closing text or
-- at the end of the input; a number is decimal; a keyword is a word of the language's keyword set or
-- a name that every object inherits, and any other word is plain. No token is empty.
pub tokenize-AllShaped :
    (cache : Cache) (text language : Text)
    → IsValid cache
    → contains inherited_names language ≡ false
    → (key : Text) × (cfg : LangConfig) × (tokens : List Token) × (later : Cache) × Selected
        language key cfg
      × (tokenize cache text language ≡ some (tokens, later))
      × AllShaped cfg tokens
tokenize-AllShaped cache text language v h =
    let t = tokenize-Tokenized cache text language v h in
    (
      t.key,
      t.cfg,
      t.tokens,
      t.later,
      t.selected,
      t.returns,
      Scanned-AllShaped (Selected-IsApart t.selected) t.scanned,
    )

-- The names of `Object.prototype` begin as words do.
abbrev AllNames : List Text → Type 0
AllNames [] = Unit
AllNames ([] ∷ ts) = ⊥
AllNames ((x ∷ xs) ∷ ts) = (is_letter x ≡ true) × AllNames ts

or_right : (a b : Bool) → b ≡ true → (a || b) ≡ true
or_right a b h = ground arith

has_keyword_inherited :
    (set : KeywordSet) (word : Text)
    → contains inherited_names word ≡ true
    → has_keyword set word ≡ true
unfolding has_keyword
has_keyword_inherited set word h =
    or_right (contains set.own word) (contains inherited_names word) h

-- Where the case of letters counts, every name that objects inherit, such as `constructor` and
-- `toString`, is classed as a keyword, whether or not the language lists it.
pub classify_inherited :
    (cfg : LangConfig) (word : Text)
    → IsApart cfg
    → cfg.case_insensitive ≡ false
    → contains inherited_names word ≡ true
    → classify cfg word ≡ keyword
classify_inherited cfg word a i h =
    go inherited_names
      (
        refl,
        (refl, (refl, (refl, (refl, (refl, (refl, (refl, (refl, (refl, (refl, (refl, tt))))))))))),
      )
      h
  where
    go :
        (names : List Text)
        → AllNames names
        → contains names word ≡ true
        → classify cfg word ≡ keyword
    go [] n m = cc
    go ([] ∷ ts) n m = absurd n
    go ((x ∷ xs) ∷ ts) n m = elim (Bool-cases (text_eq (x ∷ xs) word)) [
      | inl e ↦
          let same : x ∷ xs ≡ word = (text_eq_iff (x ∷ xs) word).0 e in
          let known : has_keyword cfg.keywords (looked_up cfg (x ∷ xs)) ≡ true =
            rw i (has_keyword_inherited cfg.keywords (x ∷ xs) (rw (← same) at h)) in
          rw (← same) (classify_name cfg a x xs n.0 ∙ rw known refl)
      | inr e ↦ go ts n.1 (rw e at m)
    ]
