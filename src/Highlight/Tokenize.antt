-- ===== src/Highlight/Tokenize.antt =====
-- SyntaxHighlight.js: `tokenize`. `none` stands for an exception.
pub mod Lossless
pub mod Rounds
pub mod Tokens
pub mod Shaped
pub mod Shapes
pub mod Cached
pub mod Exceptions
pub mod Words
pub mod Apart
use omarchy_hackertyper.Base.{
  ℕ, zero, suc, ◌+◌, ◌-◌, Bool, true, false, List, [], ◌∷◌, ◌++◌, Option, none, some, ◌==◌,
  if◌then◌else◌, ltb, Text, codes, contains, length, take, text_eq,
}
use omarchy_hackertyper.Highlight.Config.{LangConfig, Property, own_value, inherited, property_of}
use omarchy_hackertyper.Highlight.Languages.{languages, fallback}
use omarchy_hackertyper.Highlight.Regex.{Regex, Cursor, cursor, Match, search_regex}
use omarchy_hackertyper.Highlight.Scanner.{TokenType, plain, classify, Cache, scanner_for}

pub record Token : Type 0 where
  pub type : TokenType
  pub text : Text

-- `text.slice(from, to)`, for two positions of the text.
abbrev pub between : Cursor → Cursor → Text
between from to = take (length from.rest - length to.rest) from.rest

-- The position one code unit on; `none` behind the end of the text.
abbrev pub step_from : Text → Text → Option Cursor
step_from b [] = none
step_from b (x ∷ xs) = some (cursor (x ∷ b) xs)

-- `scanner.exec(text)` at its `lastIndex`.
abbrev pub exec : Regex → Option Cursor → Option Match
exec scanner none = none
exec scanner (some c) = search_regex scanner c.before c.rest

-- `lastIndex` after a match: its end, moved on if the match is empty.
abbrev pub next_index : Match → Option Cursor
next_index m =
    if length (between m.start m.stop) == 0
    then step_from m.stop.before m.stop.rest
    else some m.stop

-- The unmatched text in front of a match.
abbrev pub gap : Cursor → Cursor → List Token
gap last_end start =
    if ltb (length start.rest) (length last_end.rest)
    then record { type = plain; text = between last_end start } ∷ []
    else []

abbrev pub rest_token : Text → List Token
rest_token [] = []
rest_token (x ∷ xs) = record { type = plain; text = x ∷ xs } ∷ []

-- The `while` loop, with a bound on its rounds; `none` where the bound is too small.
unfoldable pub scan :
    ℕ → LangConfig → Regex → Cursor → Option Cursor → List Token → Option (List Token)
unfolding search_regex classify
scan zero cfg scanner last_end last_index tokens = none
scan (suc fuel) cfg scanner last_end last_index tokens = elim (exec scanner last_index) [
  | none ↦ some (tokens ++ rest_token last_end.rest)
  | some m ↦
      let match = between m.start m.stop in
      scan fuel cfg scanner m.stop (next_index m) (
        tokens
        ++ (gap last_end m.start ++ (record { type = classify cfg match; text = match } ∷ [])))
]

-- The rounds that a text can take: a match at each position, and the one that finds none.
abbrev pub rounds : Text → ℕ
rounds text = length text + 2

abbrev pub start_of : Text → Cursor
start_of text = cursor [] text

unfoldable pub scan_text : LangConfig → Regex → Text → Option (List Token)
unfolding scan
scan_text cfg scanner text =
    scan (rounds text) cfg scanner (start_of text) (some (start_of text)) []

unfoldable pub config_of : Text → List (Text × LangConfig) → Option LangConfig
config_of language [] = none
config_of language ((name, cfg) ∷ rest) =
    let later = config_of language rest in if text_eq name language then some cfg else later

-- `LANGUAGES[language] || FALLBACK` with its cache key.
unfoldable pub select_config : Text → Text × Property LangConfig
unfolding config_of languages fallback
select_config language = elim (property_of language (config_of language languages)) [
  | some cfg ↦ (language, cfg)
  | none ↦ (codes "__fallback__", own_value fallback)
]

-- The loop with what was selected. No inherited value has a method `exec`, so that the first call of it
-- throws; an inherited configuration has no `stringChars`, so that the class of a first match does.
unfoldable pub scan_selected : Property LangConfig → Property Regex → Text → Option (List Token)
unfolding scan_text search_regex
scan_selected cfg inherited text = none
scan_selected (own_value cfg) (own_value scanner) text = scan_text cfg scanner text
scan_selected inherited (own_value scanner) text = elim (search_regex scanner [] text) [
  | none ↦ some (rest_token text)
  | some m ↦ none
]

unfoldable pub tokenize : Cache → Text → Text → Option (List Token × Cache)
unfolding select_config scanner_for scan_selected
tokenize cache text language =
    let (key, cfg) = select_config language in
    elim (scanner_for cache key cfg) [
      | none ↦ none
      | some (scanner, cache') ↦ elim (scan_selected cfg scanner text) [
        | none ↦ none
        | some tokens ↦ some (tokens, cache')
      ]
    ]
