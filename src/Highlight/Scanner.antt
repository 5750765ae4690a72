-- ===== src/Highlight/Scanner.antt =====
-- SyntaxHighlight.js: the pattern of a language, its cache, and the class of a match.
pub mod Compile
pub mod Reading
use omarchy_hackertyper.Base.{
  ℕ, ◌+◌, Bool, true, false, ◌&&◌, ◌||◌, List, [], ◌∷◌, ◌++◌, map, Option, none, some, ◌==◌,
  if◌then◌else◌, Text, codes, contains, starts_with, take, text_eq, within,
}
use omarchy_hackertyper.Highlight.Config.{
  LangConfig, has_keyword, Property, own_value, inherited, property_of,
}
use omarchy_hackertyper.Highlight.Pattern.{reg_exp}
use omarchy_hackertyper.Highlight.Regex.{Regex, is_digit}

-- The class `[.*+?^${}()|[\]\\]`.
abbrev pub is_syntax : ℕ → Bool
is_syntax c =
    c == b'.'
    || c == b'*'
    || c == b'+'
    || c == b'?'
    || c == b'^'
    || c == b'$'
    || c == b'{'
    || c == b'}'
    || c == b'('
    || c == b')'
    || c == b'|'
    || c == b'['
    || c == b']'
    || c == b'\\'

unfoldable pub escape_reg_exp : Text → Text
escape_reg_exp [] = []
escape_reg_exp (c ∷ cs) =
    let rest = escape_reg_exp cs in if is_syntax c then b'\\' ∷ c ∷ rest else c ∷ rest

abbrev pub block_part : Option (Text × Text) → List Text
block_part none = []
block_part (some (open_text, close_text)) =
    (escape_reg_exp open_text ++ codes "[\\s\\S]*?(?:" ++ escape_reg_exp close_text ++ codes "|$)")
    ∷ []

abbrev pub line_part : Option Text → List Text
line_part none = []
line_part (some text) = (escape_reg_exp text ++ codes "[^\\n]*") ∷ []

abbrev pub string_part : Text → Text
string_part text =
    let ch = escape_reg_exp text in ch ++ codes "(?:\\\\.|[^\\\\])*?(?:" ++ ch ++ codes "|$)"

-- `parts.join("|")`
abbrev pub join_parts : List Text → Text
join_parts [] = []
join_parts (p ∷ []) = p
join_parts (p ∷ q ∷ ps) = p ++ codes "|" ++ join_parts (q ∷ ps)

-- The pattern that `buildScanner` hands to `RegExp`.
unfoldable pub scanner_pattern : LangConfig → Text
unfolding escape_reg_exp
scanner_pattern cfg = join_parts (
    block_part cfg.block_comment
    ++ (line_part cfg.line_comment
        ++ (map string_part cfg.string_chars
            ++ (codes "\\b\\d+(?:\\.\\d+)?\\b" ∷ codes "[A-Za-z_][A-Za-z0-9_]*" ∷ []))))

unfoldable pub build_scanner : LangConfig → Option Regex
unfolding scanner_pattern reg_exp
build_scanner cfg = reg_exp (scanner_pattern cfg)

-- `scannerCache`: the expressions by their keys. The position `lastIndex` is not kept here, since
-- `scannerFor` sets it to 0 whenever it hands an expression out.
abbrev pub Cache : Type 0
Cache = List (Text × Regex)

unfoldable pub cached : Text → Cache → Option Regex
cached key [] = none
cached key ((k, r) ∷ rest) = let later = cached key rest in if text_eq k key then some r else later

-- `buildScanner` on what was selected: an inherited value has no `stringChars`, so that the read of
-- its length throws; `none` stands for the exception.
abbrev pub build_selected : Property LangConfig → Option Regex
build_selected (own_value cfg) = build_scanner cfg
build_selected inherited = none

-- `scannerFor`: the cache is a plain object, which inherits the names of `Object.prototype` too.
unfoldable pub scanner_for : Cache → Text → Property LangConfig → Option (Property Regex × Cache)
unfolding cached build_scanner
scanner_for cache key cfg = elim (property_of key (cached key cache)) [
  | some scanner ↦ some (scanner, cache)
  | none ↦ elim (build_selected cfg) [ none ↦ none | some r ↦ some (own_value r, (key, r) ∷ cache) ]
]

pub data TokenType : Type 0 where
  keyword string comment number plain : TokenType

-- `/^\d/`
abbrev pub starts_with_digit : Text → Bool
starts_with_digit [] = false
starts_with_digit (c ∷ cs) = is_digit c

-- `toLowerCase`, on the ASCII words that reach it.
abbrev pub to_lower : Text → Text
to_lower = map (λ c. if within b'A' b'Z' c then c + 32 else c)

abbrev pub opens_block : Option (Text × Text) → Text → Bool
opens_block none t = false
opens_block (some (open_text, close_text)) t = starts_with open_text t

abbrev pub opens_line : Option Text → Text → Bool
opens_line none t = false
opens_line (some text) t = starts_with text t

unfoldable pub classify : LangConfig → Text → TokenType
unfolding has_keyword
classify cfg match =
    let first = take 1 match in
    let word = if cfg.case_insensitive then to_lower match else match in
    if opens_block cfg.block_comment match
    then comment
    else if opens_line cfg.line_comment match
    then comment
    else if contains cfg.string_chars first
    then string
    else if starts_with_digit match
    then number
    else if has_keyword cfg.keywords word
    then keyword
    else plain
