-- ===== src/Markup/Reader.antt =====
-- What a styled text shows: an independent reading of the markup, in which a tag shows nothing but
-- a line break, and a named character stands for itself.
use omarchy_hackertyper.Base.{ℕ, [], ◌∷◌, ◌++◌, ◌==◌, if◌then◌else◌, Text, codes, text_eq}

pub data Mode : Type 0 where
  in_text : Mode
  -- what has been read of a tag, and of a named character
  in_tag in_name : Text → Mode

abbrev pub shown_tag : Text → Text
shown_tag tag = if text_eq tag (codes "br") then b'\n' ∷ [] else []

abbrev pub shown_name : Text → Text
shown_name name =
    if text_eq name (codes "amp")
    then b'&' ∷ []
    else if text_eq name (codes "lt")
    then b'<' ∷ []
    else if text_eq name (codes "gt")
    then b'>' ∷ []
    else []

abbrev pub next_mode : Mode → ℕ → Mode
next_mode in_text c = if c == b'<' then in_tag [] else if c == b'&' then in_name [] else in_text
next_mode (in_tag tag) c = if c == b'>' then in_text else in_tag (tag ++ c ∷ [])
next_mode (in_name name) c = if c == b';' then in_text else in_name (name ++ c ∷ [])

abbrev pub emitted : Mode → ℕ → Text
emitted in_text c = if c == b'<' then [] else if c == b'&' then [] else c ∷ []
emitted (in_tag tag) c = if c == b'>' then shown_tag tag else []
emitted (in_name name) c = if c == b';' then shown_name name else []

unfoldable pub shown_from : Mode → Text → Text
shown_from mode [] = []
shown_from mode (c ∷ cs) = emitted mode c ++ shown_from (next_mode mode c) cs

abbrev pub shown : Text → Text
shown = shown_from in_text
