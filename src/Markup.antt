-- ===== src/Markup.antt =====
-- HackerTyper.qml: the markup of the typed text, `escapeMarkup`, `colorForTokenType` and
-- `buildHighlightedMarkup`. The colours of the theme are texts, as QML writes them into a string.
pub mod Reader
pub mod Escape
pub mod Shown
pub mod Painter
pub mod Painted
use omarchy_hackertyper.Base.{
  ℕ, List, [], ◌∷◌, ◌++◌, Option, none, some, ◌==◌, if◌then◌else◌, Text, codes,
}
use omarchy_hackertyper.Highlight.Scanner.{
  TokenType, keyword, string, comment, number, plain, Cache,
}
use omarchy_hackertyper.Highlight.Tokenize.{Token, tokenize}
use omarchy_hackertyper.Lines.{is_empty}

pub record Theme : Type 0 where
  pub foreground : Text
  pub muted : Text

abbrev pub no_break_space : ℕ
no_break_space = 0xa0

-- `replace(/c/g, by)`
unfoldable pub replace_all : ℕ → Text → Text → Text
replace_all c by [] = []
replace_all c by (x ∷ xs) =
    let rest = replace_all c by xs in if x == c then by ++ rest else x ∷ rest

abbrev pub tab_spaces : Text
tab_spaces = no_break_space ∷ no_break_space ∷ no_break_space ∷ no_break_space ∷ []

unfoldable pub escape_markup : Text → Text
unfolding replace_all
escape_markup text = replace_all b' ' (no_break_space ∷ []) (
    replace_all b'\t' tab_spaces (
      replace_all b'\n' (codes "<br>") (
        replace_all b'>' (codes "&gt;")
          (replace_all b'<' (codes "&lt;") (replace_all b'&' (codes "&amp;") text)))))

unfoldable pub color_for_token_type : Theme → TokenType → Text
color_for_token_type theme keyword = codes "#c586c0"
color_for_token_type theme string = codes "#ce9178"
color_for_token_type theme number = codes "#b5cea8"
color_for_token_type theme comment = theme.muted
color_for_token_type theme plain = theme.foreground

abbrev pub font_markup : Text → Text → Text
font_markup color escaped =
    codes "<font color=\"" ++ (color ++ (codes "\">" ++ (escaped ++ codes "</font>")))

abbrev pub token_markup : Theme → TokenType → Text → Text
token_markup theme plain escaped = escaped
token_markup theme type escaped = font_markup (color_for_token_type theme type) escaped

-- The loop over the tokens, with the parts joined.
unfoldable pub markup_of_tokens : Theme → List Token → Text
unfolding escape_markup color_for_token_type
markup_of_tokens theme [] = []
markup_of_tokens theme (token ∷ tokens) =
    let rest = markup_of_tokens theme tokens in
    let escaped = escape_markup token.text in
    if is_empty escaped then rest else token_markup theme token.type escaped ++ rest

-- `none` stands for an exception of the tokenizer.
unfoldable pub build_highlighted_markup : Theme → Cache → Text → Text → Option (Text × Cache)
unfolding markup_of_tokens tokenize
build_highlighted_markup theme cache text language =
    if is_empty text then some ([], cache) else elim (tokenize cache text language) [
      | none ↦ none
      | some (tokens, later) ↦ some (markup_of_tokens theme tokens, later)
    ]
