-- ===== src/Markup/Shown.antt =====
-- The markup shows the typed text: whatever the tokens are, escaping and colouring add nothing to it
-- and take nothing away.
use omarchy_hackertyper.Base.{
  Bool, true, false, not, List, [], ◌∷◌, ◌++◌, some, ◌==◌, Bool-cases, Text, codes, contains, all,
  append_assoc, append-nil, ◌≡◌, refl, sym, ap, ◌∙◌, arith, inl, inr, ◌⊎◌,
}
use omarchy_hackertyper.Highlight.Config.{inherited_names}
use omarchy_hackertyper.Highlight.Scanner.{
  TokenType, keyword, string, comment, number, plain, Cache,
}
use omarchy_hackertyper.Highlight.Tokenize.Cached.{IsValid, tokenize_lossless}
use omarchy_hackertyper.Highlight.Tokenize.Lossless.{text_of}
use omarchy_hackertyper.Highlight.Tokenize.{Token}
use omarchy_hackertyper.Lines.{is_empty}
use omarchy_hackertyper.Markup.Reader.{in_tag, shown_from, shown}
use omarchy_hackertyper.Markup.{
  Theme, escape_markup, color_for_token_type, font_markup, token_markup, markup_of_tokens,
  build_highlighted_markup,
}
use omarchy_hackertyper.Markup.Escape.{
  empty-escape_markup, display, display-append, shown-escape_markup,
}

-- A text without `>` stays within its tag.
abbrev pub is_tag_text : Text → Bool
is_tag_text = all (λ c. not (c == b'>'))

shown_from-in_tag :
    (tag body rest : Text)
    → is_tag_text body ≡ true
    → shown_from (in_tag tag) (body ++ rest) ≡ shown_from (in_tag (tag ++ body)) rest
unfolding shown_from
shown_from-in_tag tag [] rest h = rw (append-nil tag) refl
shown_from-in_tag tag (c ∷ cs) rest h = elim (Bool-cases (c == b'>')) [
  | inl e ↦ absurd (ground arith)
  | inr e ↦
      let next : (tag ++ c ∷ []) ++ cs ≡ tag ++ c ∷ cs = append_assoc tag (c ∷ []) cs in
      rw e (
        shown_from-in_tag (tag ++ c ∷ []) cs rest (ground arith)
        ∙ ap (λ t. shown_from (in_tag t) rest) next)
]

-- Colouring shows nothing but the coloured text.
shown-font_markup :
    (color escaped rest : Text)
    → is_tag_text color ≡ true
    → shown (font_markup color escaped ++ rest) ≡ shown (escaped ++ (codes "</font>" ++ rest))
unfolding shown_from
shown-font_markup color escaped rest h =
    let behind = codes "\">" ++ (escaped ++ codes "</font>") in
    ap (shown_from (in_tag (codes "font color=\""))) (
      append_assoc color behind rest
      ∙ ap (λ u. color ++ (codes "\">" ++ u)) (append_assoc escaped (codes "</font>") rest))
    ∙ shown_from-in_tag (codes "font color=\"") color
        (codes "\">" ++ (escaped ++ (codes "</font>" ++ rest))) h

shown_close : (rest : Text) → shown (codes "</font>" ++ rest) ≡ shown rest
unfolding shown_from
shown_close rest = refl

-- The colours can stand in a tag: for the theme's, that is asked of the theme.
pub record IsTheme (theme : Theme) : Type 0 where
  pub foreground_in_tag : is_tag_text theme.foreground ≡ true
  pub muted_in_tag : is_tag_text theme.muted ≡ true

color_in_tag :
    (theme : Theme) (type : TokenType)
    → IsTheme theme
    → is_tag_text (color_for_token_type theme type) ≡ true
unfolding color_for_token_type
color_in_tag theme keyword t = refl
color_in_tag theme string t = refl
color_in_tag theme number t = refl
color_in_tag theme comment t = t.muted_in_tag
color_in_tag theme plain t = t.foreground_in_tag

shown_font :
    (color text rest : Text)
    → is_tag_text color ≡ true
    → shown (font_markup color (escape_markup text) ++ rest) ≡ display text ++ shown rest
shown_font color text rest h =
    shown-font_markup color (escape_markup text) rest h
    ∙ shown-escape_markup text (codes "</font>" ++ rest)
    ∙ ap (◌++◌ (display text)) (shown_close rest)

shown-token_markup :
    (theme : Theme) (type : TokenType) (text rest : Text)
    → IsTheme theme
    → shown (token_markup theme type (escape_markup text) ++ rest) ≡ display text ++ shown rest
shown-token_markup theme plain text rest t = shown-escape_markup text rest
shown-token_markup theme keyword text rest t =
    shown_font (color_for_token_type theme keyword) text rest (color_in_tag theme keyword t)
shown-token_markup theme string text rest t =
    shown_font (color_for_token_type theme string) text rest (color_in_tag theme string t)
shown-token_markup theme number text rest t =
    shown_font (color_for_token_type theme number) text rest (color_in_tag theme number t)
shown-token_markup theme comment text rest t =
    shown_font (color_for_token_type theme comment) text rest (color_in_tag theme comment t)

-- For any tokens, coloured or not, and a theme whose colours can stand in a
-- tag, the markup shows the texts of the tokens, with hard spaces for spaces
-- and tabs, in front of what any further markup shows.
pub shown-markup_of_tokens :
    (theme : Theme) (tokens : List Token) (rest : Text)
    → IsTheme theme
    → shown (markup_of_tokens theme tokens ++ rest) ≡ display (text_of tokens) ++ shown rest
unfolding markup_of_tokens display
shown-markup_of_tokens theme [] rest t = refl
shown-markup_of_tokens theme (token ∷ tokens) rest t =
    go (shown-markup_of_tokens theme tokens rest t)
      (Bool-cases (is_empty (escape_markup token.text)))
  where
    go :
        shown (markup_of_tokens theme tokens ++ rest) ≡ display (text_of tokens) ++ shown rest
        → (is_empty (escape_markup token.text) ≡ true)
          ⊎ (is_empty (escape_markup token.text) ≡ false)
        → shown (markup_of_tokens theme (token ∷ tokens) ++ rest)
          ≡ display (text_of (token ∷ tokens)) ++ shown rest
    go ih (inl e) = rw (markup_of_tokens, e, empty-escape_markup token.text e) ih
    go ih (inr e) =
        let first = token_markup theme token.type (escape_markup token.text) in
        rw (markup_of_tokens, e)
          (ap shown (append_assoc first (markup_of_tokens theme tokens) rest)
            ∙ shown-token_markup theme token.type token.text (markup_of_tokens theme tokens ++ rest)
                t
            ∙ ap (◌++◌ (display token.text)) ih
            ∙ sym (append_assoc (display token.text) (display (text_of tokens)) (shown rest))
            ∙ ap (λ u. u ++ shown rest) (sym (display-append token.text (text_of tokens))))

-- For every text, every language name that no object inherits and every valid cache, the markup is
-- built and keeps the cache valid; and in front of any other markup it shows the text, with hard
-- spaces for spaces and tabs. So the highlighting loses, adds and moves no character of the source,
-- and takes none for a tag.
pub shown-build_highlighted_markup :
    (theme : Theme) (cache : Cache) (text language rest : Text)
    → IsTheme theme
    → IsValid cache
    → contains inherited_names language ≡ false
    → (markup : Text) × (later : Cache) × (build_highlighted_markup theme cache text language
        ≡ some (markup, later))
      × (shown (markup ++ rest) ≡ display text ++ shown rest)
      × IsValid later
unfolding build_highlighted_markup
shown-build_highlighted_markup theme cache [] language rest t v h =
    ([], cache, refl, unfold display in refl, v)
shown-build_highlighted_markup theme cache (c ∷ cs) language rest t v h =
    let (tokens, later, e, same, v') = tokenize_lossless cache (c ∷ cs) language v h in
    (
      markup_of_tokens theme tokens,
      later,
      rw (e, build_highlighted_markup) refl,
      shown-markup_of_tokens theme tokens rest t ∙ ap (λ u. display u ++ shown rest) same,
      v',
    )
