-- ===== src/Markup/Painter.antt =====
-- What a styled text shows, with colours: an independent reading of the markup, in which `<font>` sets
-- the colour of what follows, up to its end. Such tags are not nested here.
use omarchy_hackertyper.Base.{
  ℕ, Bool, not, List, [], ◌∷◌, ◌++◌, map, Option, none, some, ◌==◌, if◌then◌else◌, Text, codes,
  drop, length, starts_with, take_while, text_eq,
}
use omarchy_hackertyper.Markup.Reader.{Mode, in_text, in_tag, in_name, next_mode, emitted}

-- A code unit that is seen, with its colour; `none` is the colour of the whole text.
pub record Glyph : Type 0 where
  pub unit : ℕ
  pub color : Option Text

abbrev pub glyph : Option Text → ℕ → Glyph
glyph color c = record { unit = c; color = color }

abbrev pub not_quote : ℕ → Bool
not_quote c = not (c == b'"')

abbrev pub opening : Text
opening = codes "font color=\""

-- The colour behind a tag.
abbrev pub tag_color : Option Text → Text → Option Text
tag_color color tag =
    if text_eq tag (codes "/font")
    then none
    else if starts_with opening tag
    then some (take_while not_quote (drop (length opening) tag))
    else color

abbrev pub next_color : Option Text → Mode → ℕ → Option Text
next_color color in_text c = color
next_color color (in_tag tag) c = if c == b'>' then tag_color color tag else color
next_color color (in_name name) c = color

unfoldable pub painted_from : Option Text → Mode → Text → List Glyph
painted_from color mode [] = []
painted_from color mode (c ∷ cs) =
    map (glyph color) (emitted mode c)
    ++ painted_from (next_color color mode c) (next_mode mode c) cs

abbrev pub painted : Text → List Glyph
painted = painted_from none in_text
