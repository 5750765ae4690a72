-- ===== src/Tests/Highlighting.antt =====
-- SyntaxHighlight.js.
use Prim.Native.String.{String}
use omarchy_hackertyper.Base.{
  true, false, List, [], ◌∷◌, Option, none, some, Text, codes, contains, ◌≡◌, refl, ◌↔◌,
}
use omarchy_hackertyper.Highlight.Config.{LangConfig, has_keyword, inherited_names}
use omarchy_hackertyper.Highlight.Languages.{languages, c}
use omarchy_hackertyper.Highlight.Lexer.Scanning.{tokenize-lex_text}
use omarchy_hackertyper.Highlight.Lexer.{lex_text}
use omarchy_hackertyper.Highlight.Scanner.Compile.{scanner}
use omarchy_hackertyper.Highlight.Scanner.Reading.{build_scanner_lem}
use omarchy_hackertyper.Highlight.Scanner.{
  Cache, TokenType, keyword, string, comment, number, plain, build_scanner,
}
use omarchy_hackertyper.Highlight.Tokenize.Cached.{
  IsValid, empty-IsValid, cached-cons-IsValid, config_of_key, Selected, tokenize_lossless,
}
use omarchy_hackertyper.Highlight.Tokenize.Exceptions.{call_all, tokenize_throws}
use omarchy_hackertyper.Highlight.Tokenize.Lossless.{text_of}
use omarchy_hackertyper.Highlight.Tokenize.Rounds.{scan_text-returns}
use omarchy_hackertyper.Highlight.Tokenize.Tokens.{AllShaped, tokenize-AllShaped}
use omarchy_hackertyper.Highlight.Tokenize.{Token, tokenize, config_of, scan_text}

abbrev token : TokenType → String → Token
token k s = record { type = k; text = codes s }

abbrev tokens_of : Option (List Token × Cache) → List Token
tokens_of none = []
tokens_of (some (ts, _)) = ts

abbrev c_text : Text
c_text = codes "int x1 = 42; // n\n\"a\\\"b"

c_tokens :
    tokens_of (tokenize [] c_text (codes "C"))
    ≡ token keyword "int"
      ∷ token plain " "
      ∷ token plain "x1"
      ∷ token plain " = "
      ∷ token number "42"
      ∷ token plain "; "
      ∷ token comment "// n"
      ∷ token plain "\n"
      ∷ token string "\"a\\\"b"
      ∷ []
unfolding tokenize
c_tokens = refl

-- A string that ends the text in a backslash is not matched: a backslash needs a character behind it.
backslash_tokens :
    tokens_of (tokenize [] (codes "\"ab\\") (codes "C"))
    ≡ token plain "\"" ∷ token plain "ab" ∷ token plain "\\" ∷ []
unfolding tokenize
backslash_tokens = refl

sql_tokens :
    tokens_of (tokenize [] (codes "SELECT 'it' -- 1.5") (codes "SQL"))
    ≡ token keyword "SELECT"
      ∷ token plain " "
      ∷ token string "'it'"
      ∷ token plain " "
      ∷ token comment "-- 1.5"
      ∷ []
unfolding tokenize
sql_tokens = refl

tokenize_lossless_example :
    (tokens : List Token) × (later : Cache) × (tokenize [] c_text (codes "C")
      ≡ some (tokens, later))
    × (text_of tokens ≡ c_text)
    × IsValid later
tokenize_lossless_example = tokenize_lossless [] c_text (codes "C") empty-IsValid refl

tokenize-AllShaped_example :
    (key : Text) × (cfg : LangConfig) × (tokens : List Token) × (later : Cache) × Selected
      (codes "C")
      key
      cfg
    × (tokenize [] c_text (codes "C") ≡ some (tokens, later))
    × AllShaped cfg tokens
tokenize-AllShaped_example = tokenize-AllShaped [] c_text (codes "C") empty-IsValid refl

-- A cache that holds the scanner of C already.
abbrev warm : Cache
warm = (codes "C", scanner c) ∷ []

c_key : config_of_key (codes "C") ≡ c
unfolding config_of_key config_of languages
c_key = refl

warm-IsValid : IsValid warm
warm-IsValid = cached-cons-IsValid (codes "C") c [] c_key empty-IsValid

-- With a quote that is not closed, numbers at the edges of words, and a comment that is not closed.
abbrev lexed_text : Text
lexed_text = codes "x1 1x 1.5 2.x 'a\\'b' /* 'c"

lexed_tokens :
    lex_text c lexed_text
    ≡ token plain "x1"
      ∷ token plain " 1"
      ∷ token plain "x"
      ∷ token plain " "
      ∷ token number "1.5"
      ∷ token plain " "
      ∷ token number "2"
      ∷ token plain "."
      ∷ token plain "x"
      ∷ token plain " "
      ∷ token string "'a\\'b'"
      ∷ token plain " "
      ∷ token comment "/* 'c"
      ∷ []
unfolding lex_text c has_keyword
lexed_tokens = refl

tokenize-lex_text_example :
    (key : Text) × (cfg : LangConfig) × (later : Cache) × Selected (codes "C") key cfg
    × (tokenize warm lexed_text (codes "C") ≡ some (lex_text cfg lexed_text, later))
    × IsValid later
tokenize-lex_text_example = tokenize-lex_text warm lexed_text (codes "C") warm-IsValid refl

-- Two calls, the first of which ends in an exception.
abbrev two_calls : List (Text × Text)
two_calls = (c_text, codes "toString") ∷ (c_text, codes "C") ∷ []

tokenize_throws_example :
    (tokenize (call_all [] two_calls) c_text (codes "constructor") ≡ none)
    ↔ (contains inherited_names (codes "constructor") ≡ true)
tokenize_throws_example = tokenize_throws two_calls c_text (codes "constructor")

constructor_throws : tokenize (call_all [] two_calls) c_text (codes "constructor") ≡ none
constructor_throws = tokenize_throws_example.1 refl

scan_text-returns_example : (tokens : List Token) × (scan_text c (scanner c) c_text ≡ some tokens)
scan_text-returns_example = scan_text-returns c (scanner c) c_text

-- Every text of this configuration has characters that a pattern gives a meaning to.
abbrev marked : LangConfig
marked = record {
  keywords = record { own = [] };
  line_comment = some (codes "$|");
  block_comment = some (codes "(*", codes "*)");
  string_chars = codes "^" ∷ codes "\\" ∷ [];
  case_insensitive = false;
}

build_scanner_lem_example : build_scanner marked ≡ some (scanner marked)
build_scanner_lem_example = build_scanner_lem marked
