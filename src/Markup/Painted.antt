-- ===== src/Markup/Painted.antt =====
-- The markup shows each token in the colour of its type.
use mathlib.Core.List.{map-append}
use omarchy_hackertyper.Base.{
  ℕ, true, false, List, [], ◌∷◌, ◌++◌, map, Option, none, some, ◌==◌, Bool-cases, Text, codes,
  contains, all, take_while, append_assoc, append-nil, ◌≡◌, refl, sym, ap, ◌∙◌, arith, inl, inr,
  ◌⊎◌,
}
use omarchy_hackertyper.Highlight.Config.{LangConfig, inherited_names}
use omarchy_hackertyper.Highlight.Lexer.Scanning.{tokenize-lex_text}
use omarchy_hackertyper.Highlight.Lexer.{lex, lex_text}
use omarchy_hackertyper.Highlight.Tokenize.Cached.{IsValid, Selected, select_config-Selected}
use omarchy_hackertyper.Highlight.Scanner.{
  TokenType, keyword, string, comment, number, plain, Cache,
}
use omarchy_hackertyper.Highlight.Tokenize.{Token}
use omarchy_hackertyper.Lines.{is_empty}
use omarchy_hackertyper.Markup.Painter.{Glyph, glyph, not_quote, opening, painted_from, painted}
use omarchy_hackertyper.Markup.Reader.{in_tag, in_text}
use omarchy_hackertyper.Markup.Escape.{
  escape_markup-append, escape_markup-markup_unit, empty-escape_markup, markup_unit, display_unit,
  display,
}
use omarchy_hackertyper.Markup.Shown.{is_tag_text, IsTheme}
use omarchy_hackertyper.Markup.{
  Theme, escape_markup, color_for_token_type, font_markup, token_markup, markup_of_tokens,
  build_highlighted_markup,
}

module _ (color : Option Text) where
  -- A text in one colour.
  abbrev pub in_color : Text → List Glyph
  in_color = map (glyph color)

  painted-markup_unit :
      (c : ℕ) (rest : Text)
      → painted_from color in_text (markup_unit c ++ rest)
        ≡ in_color (display_unit c) ++ painted_from color in_text rest
  unfolding painted_from
  painted-markup_unit c rest = ground arith

  painted-escape_markup :
      (text rest : Text)
      → painted_from color in_text (escape_markup text ++ rest)
        ≡ in_color (display text) ++ painted_from color in_text rest
  unfolding display
  painted-escape_markup [] rest = unfold escape_markup in refl
  painted-escape_markup (c ∷ cs) rest =
      ap (λ u. painted_from color in_text (u ++ rest))
        (escape_markup-append (c ∷ []) cs
          ∙ ap (λ u. u ++ escape_markup cs) (escape_markup-markup_unit c))
      ∙ ap (painted_from color in_text) (append_assoc (markup_unit c) (escape_markup cs) rest)
      ∙ painted-markup_unit c (escape_markup cs ++ rest)
      ∙ ap (◌++◌ (in_color (display_unit c))) (painted-escape_markup cs rest)
      ∙ sym (append_assoc (in_color (display_unit c)) (in_color (display cs)) _)
      ∙ ap (λ u. u ++ painted_from color in_text rest)
          (sym (map-append (glyph color) (display_unit c) (display cs)))

  painted_from-in_tag :
      (tag body rest : Text)
      → is_tag_text body ≡ true
      → painted_from color (in_tag tag) (body ++ rest)
        ≡ painted_from color (in_tag (tag ++ body)) rest
  unfolding painted_from
  painted_from-in_tag tag [] rest h = rw (append-nil tag) refl
  painted_from-in_tag tag (c ∷ cs) rest h = elim (Bool-cases (c == b'>')) [
    | inl e ↦ absurd (ground arith)
    | inr e ↦
        let next : (tag ++ c ∷ []) ++ cs ≡ tag ++ c ∷ cs = append_assoc tag (c ∷ []) cs in
        rw e (
          painted_from-in_tag (tag ++ c ∷ []) cs rest (ground arith)
          ∙ ap (λ t. painted_from color (in_tag t) rest) next)
  ]

take_while-quoted :
    (color : Text) → all not_quote color ≡ true → take_while not_quote (color ++ b'"' ∷ []) ≡ color
take_while-quoted [] h = refl
take_while-quoted (c ∷ cs) h = ground (arith, take_while-quoted cs)

painted-font_markup :
    (color escaped rest : Text)
    → is_tag_text color ≡ true
    → all not_quote color ≡ true
    → painted (font_markup color escaped ++ rest)
      ≡ painted_from (some color) in_text (escaped ++ (codes "</font>" ++ rest))
unfolding painted_from
painted-font_markup color escaped rest h k =
    let behind = codes "\">" ++ (escaped ++ codes "</font>") in
    ap (painted_from none (in_tag opening)) (
      append_assoc color behind rest
      ∙ ap (λ u. color ++ (codes "\">" ++ u)) (append_assoc escaped (codes "</font>") rest))
    ∙ painted_from-in_tag none opening color (codes "\">" ++ (escaped ++ (codes "</font>" ++ rest)))
        h
    ∙ ap (λ q. painted_from (some q) in_text (escaped ++ (codes "</font>" ++ rest)))
        (take_while-quoted color k)

painted_close :
    (color : Option Text) (rest : Text)
    → painted_from color in_text (codes "</font>" ++ rest) ≡ painted rest
unfolding painted_from
painted_close color rest = refl

-- The colours of a theme can stand in a quoted attribute of a tag.
pub record IsColored (theme : Theme) : Type 0 where
  pub is_theme : IsTheme theme
  pub muted_unquoted : all not_quote theme.muted ≡ true

painted_font :
    (color text rest : Text)
    → is_tag_text color ≡ true
    → all not_quote color ≡ true
    → painted (font_markup color (escape_markup text) ++ rest)
      ≡ in_color (some color) (display text) ++ painted rest
painted_font color text rest h k =
    painted-font_markup color (escape_markup text) rest h k
    ∙ painted-escape_markup (some color) text (codes "</font>" ++ rest)
    ∙ ap (◌++◌ (in_color (some color) (display text))) (painted_close (some color) rest)

-- Plain text has the colour of the whole text, a comment the muted one, any other class its own.
abbrev pub color_of : Theme → TokenType → Option Text
color_of theme plain = none
color_of theme comment = some theme.muted
color_of theme keyword = some (codes "#c586c0")
color_of theme string = some (codes "#ce9178")
color_of theme number = some (codes "#b5cea8")

painted-token_markup :
    (theme : Theme) (type : TokenType) (text rest : Text)
    → IsColored theme
    → painted (token_markup theme type (escape_markup text) ++ rest)
      ≡ in_color (color_of theme type) (display text) ++ painted rest
unfolding color_for_token_type
painted-token_markup theme plain text rest t = painted-escape_markup none text rest
painted-token_markup theme keyword text rest t = painted_font (codes "#c586c0") text rest refl refl
painted-token_markup theme string text rest t = painted_font (codes "#ce9178") text rest refl refl
painted-token_markup theme number text rest t = painted_font (codes "#b5cea8") text rest refl refl
painted-token_markup theme comment text rest t =
    painted_font theme.muted text rest t.is_theme.muted_in_tag t.muted_unquoted

-- Tokens as they are to be seen.
unfoldable pub in_colors : Theme → List Token → List Glyph
unfolding display
in_colors theme [] = []
in_colors theme (token ∷ tokens) =
    in_color (color_of theme token.type) (display token.text) ++ in_colors theme tokens

pub painted-markup_of_tokens :
    (theme : Theme) (tokens : List Token) (rest : Text)
    → IsColored theme
    → painted (markup_of_tokens theme tokens ++ rest) ≡ in_colors theme tokens ++ painted rest
unfolding markup_of_tokens in_colors
painted-markup_of_tokens theme [] rest t = refl
painted-markup_of_tokens theme (token ∷ tokens) rest t =
    go (painted-markup_of_tokens theme tokens rest t)
      (Bool-cases (is_empty (escape_markup token.text)))
  where
    go :
        painted (markup_of_tokens theme tokens ++ rest) ≡ in_colors theme tokens ++ painted rest
        → (is_empty (escape_markup token.text) ≡ true)
          ⊎ (is_empty (escape_markup token.text) ≡ false)
        → painted (markup_of_tokens theme (token ∷ tokens) ++ rest)
          ≡ in_colors theme (token ∷ tokens) ++ painted rest
    go ih (inl e) =
        rw (markup_of_tokens, e, empty-escape_markup token.text e) (unfold display in ih)
    go ih (inr e) =
        let first = token_markup theme token.type (escape_markup token.text) in
        let seen = in_color (color_of theme token.type) (display token.text) in
        rw (markup_of_tokens, e)
          (ap painted (append_assoc first (markup_of_tokens theme tokens) rest)
            ∙ painted-token_markup theme token.type token.text
                (markup_of_tokens theme tokens ++ rest) t
            ∙ ap (◌++◌ seen) ih
            ∙ sym (append_assoc seen (in_colors theme tokens) (painted rest)))

-- For every text, every language name that no object inherits and every valid cache, the markup is
-- built, and shows the lexer's tokens of the text in the colours of their classes, in front of what
-- any further markup shows.
pub painted-build_highlighted_markup :
    (theme : Theme) (cache : Cache) (text language rest : Text)
    → IsColored theme
    → IsValid cache
    → contains inherited_names language ≡ false
    → (key : Text) × (cfg : LangConfig) × (markup : Text) × (later : Cache) × Selected language key
        cfg
      × (build_highlighted_markup theme cache text language ≡ some (markup, later))
      × (painted (markup ++ rest) ≡ in_colors theme (lex_text cfg text) ++ painted rest)
      × IsValid later
unfolding build_highlighted_markup
painted-build_highlighted_markup theme cache [] language rest t v h =
    let (key, cfg, _, selected) = select_config-Selected language h in
    (key, cfg, [], cache, selected, refl, unfold in_colors lex_text lex in refl, v)
painted-build_highlighted_markup theme cache (c ∷ cs) language rest t v h =
    let (key, cfg, later, selected, e, v') = tokenize-lex_text cache (c ∷ cs) language v h in
    (
      key,
      cfg,
      markup_of_tokens theme (lex_text cfg (c ∷ cs)),
      later,
      selected,
      rw (e, build_highlighted_markup) refl,
      painted-markup_of_tokens theme (lex_text cfg (c ∷ cs)) rest t,
      v',
    )
