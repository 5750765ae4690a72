-- ===== src/Highlight/Scanner/Compile.antt =====
-- The expressions that the patterns stand for.
use omarchy_hackertyper.Base.{List, [], ◌∷◌, ◌++◌, map, Option, none, some, Text}
use omarchy_hackertyper.Highlight.Config.{LangConfig}
use omarchy_hackertyper.Highlight.Regex.Inversion.{literal, until}
use omarchy_hackertyper.Highlight.Regex.{
  single, other_than, any, dot, digit, word_start, word_part, Regex, set, boundary, star, lazy,
  plus, optional, sequence, choice,
}

-- A comment from its opening text up to its closing text, or to the end of the input.
abbrev pub block_regex : Text → Text → Regex
block_regex open_text close_text =
    sequence (literal open_text ++ (lazy (set any) ∷ until close_text ∷ []))

-- A comment up to the end of the line.
abbrev pub line_regex : Text → Regex
line_regex text = sequence (literal text ++ (star (set (other_than 10)) ∷ []))

abbrev pub string_body : Regex
string_body =
    choice
      (sequence (set (single b'\\') ∷ set dot ∷ []) ∷ sequence (set (other_than b'\\') ∷ []) ∷ [])

-- A string with its escapes, up to the closing quote or the end of the input.
abbrev pub string_regex : Text → Regex
string_regex quote = sequence (literal quote ++ (lazy string_body ∷ until quote ∷ []))

abbrev pub number_regex : Regex
number_regex = sequence (
    boundary
    ∷ plus (set digit)
    ∷ optional (sequence (set (single b'.') ∷ plus (set digit) ∷ []))
    ∷ boundary
    ∷ [])

abbrev pub word_regex : Regex
word_regex = sequence (set word_start ∷ star (set word_part) ∷ [])

abbrev pub block_regexes : Option (Text × Text) → List Regex
block_regexes none = []
block_regexes (some (open_text, close_text)) = block_regex open_text close_text ∷ []

abbrev pub line_regexes : Option Text → List Regex
line_regexes none = []
line_regexes (some text) = line_regex text ∷ []

abbrev pub scanner_parts : LangConfig → List Regex
scanner_parts cfg =
    block_regexes cfg.block_comment
    ++ (line_regexes cfg.line_comment
        ++ (map string_regex cfg.string_chars ++ (number_regex ∷ word_regex ∷ [])))

abbrev pub scanner : LangConfig → Regex
scanner cfg = choice (scanner_parts cfg)
