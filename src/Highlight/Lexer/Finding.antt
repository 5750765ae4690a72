-- ===== src/Highlight/Lexer/Finding.antt =====
-- A scanner finds what the lexer finds.
use omarchy_hackertyper.Base.{
  true, List, [], ◌∷◌, ◌++◌, map, Option, none, some, Text, all, ◌≡◌, ◌≢◌, refl, sym, ap, ◌∙◌,
  arith,
}
use omarchy_hackertyper.Highlight.Config.{LangConfig}
use omarchy_hackertyper.Highlight.Lexer.Numbers.{number-match, word-match}
use omarchy_hackertyper.Highlight.Lexer.Parts.{stop_of, block-match, line-match}
use omarchy_hackertyper.Highlight.Lexer.Strings.{string-match}
use omarchy_hackertyper.Highlight.Lexer.{
  Found, or_found, find_block, find_line, find_quoted, find_string, find_number, find_word, find,
}
use omarchy_hackertyper.Highlight.Regex.{Regex, cursor, or_else, match_regex, choice}
use omarchy_hackertyper.Highlight.Scanner.Compile.{
  block_regexes, line_regexes, string_regex, number_regex, word_regex, scanner,
}
use omarchy_hackertyper.Highlight.Tokenize.Shapes.{is_quote}

module _ (b t : Text) where
  -- The first of some expressions that matches here stops where the lexer's find does.
  abbrev Agrees : List Regex → Option Found → Type 0
  Agrees rs o = match_regex (choice rs) (cursor b t) some ≡ stop_of b o

  or_found-stop_of :
      (f g : Option Found) → or_else (stop_of b f) (stop_of b g) ≡ stop_of b (or_found f g)
  or_found-stop_of none g = refl
  or_found-stop_of (some f) g = refl

  or_found_assoc : (f g h : Option Found) → or_found (or_found f g) h ≡ or_found f (or_found g h)
  or_found_assoc none g h = refl
  or_found_assoc (some f) g h = refl

  cons-Agrees :
      (r : Regex) (f : Option Found) (rs : List Regex) (o : Option Found)
      → match_regex r (cursor b t) some ≡ stop_of b f
      → rs ≢ []
      → Agrees rs o
      → Agrees (r ∷ rs) (or_found f o)
  unfolding match_regex
  cons-Agrees r f [] o m n a = absurd (n refl)
  cons-Agrees r f (s ∷ rs) o m n a = rw (m, a) (or_found-stop_of f o)

  append-ne-nil : (rs ss : List Regex) → ss ≢ [] → (rs ++ ss) ≢ []
  append-ne-nil [] ss h e = h e
  append-ne-nil (r ∷ rs) ss h e = cc

  block-Agrees :
      (block : Option (Text × Text)) (rs : List Regex) (o : Option Found)
      → rs ≢ []
      → Agrees rs o
      → Agrees (block_regexes block ++ rs) (or_found (find_block block t) o)
  block-Agrees none rs o n a = a
  block-Agrees (some (x, y)) rs o n a =
      cons-Agrees _ (find_block (some (x, y)) t) rs o (block-match x y b t) n a

  line-Agrees :
      (line : Option Text) (rs : List Regex) (o : Option Found)
      → rs ≢ []
      → Agrees rs o
      → Agrees (line_regexes line ++ rs) (or_found (find_line line t) o)
  line-Agrees none rs o n a = a
  line-Agrees (some x) rs o n a = cons-Agrees _ (find_line (some x) t) rs o (line-match x b t) n a

  string-Agrees :
      (quotes : List Text) (rs : List Regex) (o : Option Found)
      → all is_quote quotes ≡ true
      → rs ≢ []
      → Agrees rs o
      → Agrees (map string_regex quotes ++ rs) (or_found (find_string quotes t) o)
  string-Agrees [] rs o q n a = a
  string-Agrees ([] ∷ quotes) rs o q n a = cc
  string-Agrees ((x ∷ y ∷ ys) ∷ quotes) rs o q n a = cc
  string-Agrees ((x ∷ []) ∷ quotes) rs o q n a =
      let rest = string-Agrees quotes rs o (ground arith) n a in
      cons-Agrees (string_regex (x ∷ [])) (find_quoted (x ∷ []) t) (map string_regex quotes ++ rs)
        (or_found (find_string quotes t) o) (string-match x b t)
        (append-ne-nil (map string_regex quotes) rs n) rest
      ∙ ap (stop_of b) (sym (or_found_assoc (find_quoted (x ∷ []) t) (find_string quotes t) o))

-- At every place the scanner of a language finds what the lexer finds.
pub find-match :
    (cfg : LangConfig) (b t : Text)
    → all is_quote cfg.string_chars ≡ true
    → match_regex (scanner cfg) (cursor b t) some ≡ stop_of b (find cfg b t)
unfolding find
find-match cfg b t q =
    let words =
      cons-Agrees b t number_regex (find_number b t) (word_regex ∷ []) (find_word cfg t)
        (number-match b t) (λ e. cc) (word-match cfg b t) in
    let atoms = or_found (find_number b t) (find_word cfg t) in
    let strings =
      string-Agrees b t cfg.string_chars (number_regex ∷ word_regex ∷ []) atoms q (λ e. cc) words in
    let quoted = map string_regex cfg.string_chars ++ number_regex ∷ word_regex ∷ [] in
    let lines =
      line-Agrees b t cfg.line_comment quoted (or_found (find_string cfg.string_chars t) atoms)
        (append-ne-nil b t (map string_regex cfg.string_chars) (number_regex ∷ word_regex ∷ [])
          (λ e. cc))
        strings in
    block-Agrees b t cfg.block_comment (line_regexes cfg.line_comment ++ quoted)
      (or_found (find_line cfg.line_comment t) (or_found (find_string cfg.string_chars t) atoms))
      (append-ne-nil b t (line_regexes cfg.line_comment) quoted (
        append-ne-nil b t (map string_regex cfg.string_chars) (number_regex ∷ word_regex ∷ [])
          (λ e. cc)))
      lines
