-- ===== src/Highlight/Lexer.antt =====
-- A lexer without regular expressions, that says what `tokenize` of SyntaxHighlight.js amounts to. It
-- steps through a text one code unit at a time.
pub mod Parts
pub mod Strings
pub mod Cuts
pub mod Numbers
pub mod Finding
pub mod Classes
pub mod Scanning
use omarchy_hackertyper.Base.{
  ℕ, zero, suc, Bool, true, false, List, [], ◌∷◌, ◌++◌, reverse, Option, none, some, ◌==◌,
  if◌then◌else◌, Text, drop, drop_while, take_while, length, starts_with,
}
use omarchy_hackertyper.Highlight.Config.{LangConfig, has_keyword}
use omarchy_hackertyper.Highlight.Regex.{is_digit, is_letter, is_word, is_line_end, first_is_word}
use omarchy_hackertyper.Highlight.Scanner.{
  TokenType, keyword, string, comment, number, plain, to_lower,
}
use omarchy_hackertyper.Highlight.Tokenize.Shapes.{not_newline}
use omarchy_hackertyper.Highlight.Tokenize.{Token, rest_token}

-- What is found at a place, and the text behind it.
pub record Found : Type 0 where
  pub type : TokenType
  pub text : Text
  pub rest : Text

abbrev pub or_found : Option Found → Option Found → Option Found
or_found none later = later
or_found (some f) later = some f

abbrev pub with_first : ℕ → Text × Text → Text × Text
with_first x cut = (x ∷ cut.0, cut.1)

-- A text cut behind the first place where the closing text stands, or at its end.
abbrev pub until_text : Text → Text → Text × Text
until_text close_text [] = ([], [])
until_text close_text (x ∷ xs) =
    let later = with_first x (until_text close_text xs) in
    if starts_with close_text (x ∷ xs)
    then (close_text, drop (length close_text) (x ∷ xs))
    else later

abbrev pub with_firsts : ℕ → Option (Text × Text) → Option (Text × Text)
with_firsts x none = none
with_firsts x (some cut) = some (with_first x cut)

-- The inside of a string: a backslash takes the next code unit with it, which has to be there and to
-- end no line.
abbrev pub until_quote : ℕ → Text → Option (Text × Text)
until_quote q [] = some ([], [])
until_quote q (x ∷ []) =
    if q == x then some (q ∷ [], []) else if x == b'\\' then none else some (x ∷ [], [])
until_quote q (x ∷ y ∷ ys) =
    let escaped = with_firsts x (with_firsts y (until_quote q ys)) in
    let unescaped = with_firsts x (until_quote q (y ∷ ys)) in
    if q == x
    then some (q ∷ [], y ∷ ys)
    else if x == b'\\'
    then if is_line_end y then none else escaped
    else unescaped

abbrev pub comment_of : Text → Text × Text → Found
comment_of open_text cut = record { type = comment; text = open_text ++ cut.0; rest = cut.1 }

abbrev pub find_block : Option (Text × Text) → Text → Option Found
find_block none t = none
find_block (some (open_text, close_text)) t =
    if starts_with open_text t
    then some (comment_of open_text (until_text close_text (drop (length open_text) t)))
    else none

abbrev pub find_line : Option Text → Text → Option Found
find_line none t = none
find_line (some open_text) t =
    let behind = drop (length open_text) t in
    if starts_with open_text t
    then some (comment_of open_text (take_while not_newline behind, drop_while not_newline behind))
    else none

abbrev pub string_of : ℕ → Option (Text × Text) → Option Found
string_of q none = none
string_of q (some cut) = some (record { type = string; text = q ∷ cut.0; rest = cut.1 })

abbrev pub find_quoted : Text → Text → Option Found
find_quoted (q ∷ []) (x ∷ xs) = if q == x then string_of q (until_quote q xs) else none
find_quoted quote t = none

abbrev pub find_string : List Text → Text → Option Found
find_string [] t = none
find_string (quote ∷ quotes) t = or_found (find_quoted quote t) (find_string quotes t)

abbrev pub number_of : Text → Text → Option Found
number_of w r = some (record { type = number; text = w; rest = r })

-- Behind the digits `ds`: a point with digits belongs to the number if no word follows them; a word
-- right behind the digits makes them no number.
abbrev pub find_fraction : Text → Text → Option Found
find_fraction ds [] = number_of ds []
find_fraction ds (x ∷ xs) =
    let es = take_while is_digit xs in
    let behind = drop_while is_digit xs in
    let whole = if is_word x then none else number_of ds (x ∷ xs) in
    if x == b'.'
    then elim es [
      | [] ↦ whole
      | e ∷ es' ↦ if first_is_word behind then whole else number_of (ds ++ x ∷ (e ∷ es')) behind
    ]
    else whole

-- A number begins where no word goes on.
abbrev pub find_number : Text → Text → Option Found
find_number before [] = none
find_number before (x ∷ xs) =
    if first_is_word before
    then none
    else if is_digit x
    then find_fraction (x ∷ take_while is_digit xs) (drop_while is_digit xs)
    else none

abbrev pub word_type : LangConfig → Text → TokenType
word_type cfg w =
    if has_keyword cfg.keywords (if cfg.case_insensitive then to_lower w else w)
    then keyword
    else plain

abbrev pub find_word : LangConfig → Text → Option Found
find_word cfg [] = none
find_word cfg (x ∷ xs) =
    let w = x ∷ take_while is_word xs in
    if is_letter x
    then some (record { type = word_type cfg w; text = w; rest = drop_while is_word xs })
    else none

-- What begins at a place, with the text before it, nearest first.
unfoldable pub find : LangConfig → Text → Text → Option Found
find cfg before t = or_found (find_block cfg.block_comment t) (
    or_found (find_line cfg.line_comment t) (
      or_found (find_string cfg.string_chars t)
        (or_found (find_number before t) (find_word cfg t))))

-- The tokens of a text; `skipped` is the text since the last token, in which nothing began. A bound
-- on the steps is one more than the text has code units.
unfoldable pub lex : ℕ → LangConfig → Text → Text → Text → List Token
unfolding find
lex zero cfg before skipped t = []
lex (suc n) cfg before skipped [] = rest_token skipped
lex (suc n) cfg before skipped (x ∷ xs) = elim (find cfg before (x ∷ xs)) [
  | none ↦ lex n cfg (x ∷ before) (skipped ++ x ∷ []) xs
  | some f ↦
      rest_token skipped
      ++ (record { type = f.type; text = f.text } ∷ lex n cfg (reverse f.text ++ before) [] f.rest)
]

unfoldable pub lex_text : LangConfig → Text → List Token
unfolding lex
lex_text cfg t = lex (suc (length t)) cfg [] [] t
