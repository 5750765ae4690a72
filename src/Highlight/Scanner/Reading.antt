-- ===== src/Highlight/Scanner/Reading.antt =====
-- Reading the parts of a pattern, one after the other.
use omarchy_hackertyper.Base.{
  List, [], ◌∷◌, ◌++◌, reverse, append_assoc, reverse-cons-append, map, Option, none, some, Text,
  codes, ◌≡◌, refl, ap, sym, ◌∙◌,
}
use omarchy_hackertyper.Highlight.Config.{LangConfig}
use omarchy_hackertyper.Highlight.Pattern.Literal.{
  onto, reverse-onto, ready, read_all-escape_reg_exp,
}
use omarchy_hackertyper.Highlight.Pattern.{
  read_all, read, read_plain, read_bracket, read_escaped, class_of, finish, reg_exp, Group,
}
use omarchy_hackertyper.Highlight.Regex.Inversion.{literal, until}
use omarchy_hackertyper.Highlight.Regex.{
  other_than, any, Regex, set, end_of_input, star, lazy, sequence, choice,
}
use omarchy_hackertyper.Highlight.Scanner.Compile.{
  block_regex, line_regex, string_regex, string_body, number_regex, word_regex, block_regexes,
  line_regexes, scanner,
}
use omarchy_hackertyper.Highlight.Scanner.{
  escape_reg_exp, block_part, line_part, string_part, join_parts, build_scanner, scanner_pattern,
}

-- A part in front of `|` is read as an alternative.
abbrev pub IsReadAs : Text → Regex → Type 0
IsReadAs part r =
    (acc : List Regex) (rest : Text)
    → read_all (ready acc [] []) (part ++ b'|' ∷ rest) ≡ read_all (ready (r ∷ acc) [] []) rest

-- The items of a group that a literal text begins.
literal-items : (t : Text) (rs : List Regex) → reverse (onto (literal t ++ rs) []) ≡ literal t ++ rs
literal-items t rs = reverse-onto (literal t ++ rs) []

onto-append : (xs ys zs : List Regex) → onto (xs ++ ys) zs ≡ onto ys (onto xs zs)
onto-append [] ys zs = refl
onto-append (x ∷ xs) ys zs = onto-append xs ys (x ∷ zs)

ended :
    (t : Text) (rs : List Regex)
    → sequence (reverse (onto rs (onto (literal t) []))) ≡ sequence (literal t ++ rs)
ended t rs =
    ap (λ x. sequence (reverse x)) (sym (onto-append (literal t) rs []))
    ∙ ap sequence (literal-items t rs)

-- An escaped text with what its part has behind it.
escaped-text :
    (t tail : Text) (choices items : List Regex) (outer : List Group) (rest : Text)
    → read_all (ready choices items outer) ((escape_reg_exp t ++ tail) ++ rest)
      ≡ read_all (ready choices (onto (literal t) items) outer) (tail ++ rest)
escaped-text t tail choices items outer rest =
    ap (read_all (ready choices items outer)) (append_assoc (escape_reg_exp t) tail rest)
    ∙ read_all-escape_reg_exp t choices items outer (tail ++ rest)

line-IsReadAs : (t : Text) → IsReadAs (escape_reg_exp t ++ codes "[^\\n]*") (line_regex t)
unfolding read_all read read_plain read_bracket class_of
line-IsReadAs t acc rest =
    escaped-text t (codes "[^\\n]*") acc [] [] (b'|' ∷ rest)
    ∙ ap (λ r. read_all (ready (r ∷ acc) [] []) rest) (ended t (star (set (other_than 10)) ∷ []))

-- What ends a comment or a string: its text, or the end of the input.
until-read :
    (t : Text) (acc items : List Regex) (rest : Text)
    → read_all
        (ready [] [] (record { choices = acc; items = items } ∷ []))
        (escape_reg_exp t ++ (codes "|$)" ++ rest))
      ≡ read_all (ready acc (until t ∷ items) []) rest
unfolding read_all read read_plain
until-read t acc items rest =
    read_all-escape_reg_exp t [] [] (record { choices = acc; items = items } ∷ [])
      (codes "|$)" ++ rest)
    ∙ ap
        (λ r. read_all (ready acc (choice (r ∷ sequence (end_of_input ∷ []) ∷ []) ∷ items) []) rest)
        (ap sequence (reverse-onto (literal t) []))

-- The four pieces of a part that has an end, each with what follows.
pieces : (a k b l rest : Text) → (a ++ k ++ b ++ l) ++ rest ≡ a ++ (k ++ (b ++ (l ++ rest)))
pieces a k b l rest = simp append_assoc

block-IsReadAs :
    (o c : Text)
    → IsReadAs
        (escape_reg_exp o ++ codes "[\\s\\S]*?(?:" ++ escape_reg_exp c ++ codes "|$)")
        (block_regex o c)
unfolding read_all read read_plain read_bracket class_of
block-IsReadAs o c acc rest =
    ap (read_all (ready acc [] [])) (
      pieces (escape_reg_exp o) (codes "[\\s\\S]*?(?:") (escape_reg_exp c) (codes "|$)")
        (b'|' ∷ rest))
    ∙ read_all-escape_reg_exp o acc [] [] _
    ∙ until-read c acc (lazy (set any) ∷ onto (literal o) []) (b'|' ∷ rest)
    ∙ ap (λ r. read_all (ready (r ∷ acc) [] []) rest) (ended o (lazy (set any) ∷ until c ∷ []))

string-IsReadAs : (t : Text) → IsReadAs (string_part t) (string_regex t)
unfolding read_all read read_plain read_bracket class_of read_escaped
string-IsReadAs t acc rest =
    ap (read_all (ready acc [] [])) (
      pieces (escape_reg_exp t) (codes "(?:\\\\.|[^\\\\])*?(?:") (escape_reg_exp t) (codes "|$)")
        (b'|' ∷ rest))
    ∙ read_all-escape_reg_exp t acc [] [] _
    ∙ until-read t acc (lazy string_body ∷ onto (literal t) []) (b'|' ∷ rest)
    ∙ ap (λ r. read_all (ready (r ∷ acc) [] []) rest) (ended t (lazy string_body ∷ until t ∷ []))

-- Some parts, joined, are read as the alternatives that they stand for.
record AreReadAs (ps : List Text) (rs : List Regex) : Type 0 where
  joins : (p : Text) → join_parts (p ∷ ps) ≡ p ++ b'|' ∷ join_parts ps
  reads :
      (acc : List Regex)
      → read_all (ready acc [] []) (join_parts ps) ≡ some (choice (reverse acc ++ rs))

last-AreReadAs :
    AreReadAs
      (codes "\\b\\d+(?:\\.\\d+)?\\b" ∷ codes "[A-Za-z_][A-Za-z0-9_]*" ∷ [])
      (number_regex ∷ word_regex ∷ [])
unfolding read_all read read_plain read_bracket class_of read_escaped finish
last-AreReadAs = record {
  joins = λ p. append_assoc p (codes "|") _;
  reads = λ acc. ap (λ x. some (choice x)) (reverse-onto (number_regex ∷ word_regex ∷ []) acc);
}

part-AreReadAs :
    (p : Text) (r : Regex) (ps : List Text) (rs : List Regex)
    → IsReadAs p r
    → AreReadAs ps rs
    → AreReadAs (p ∷ ps) (r ∷ rs)
part-AreReadAs p r ps rs h a = record {
  joins = λ q. append_assoc q (codes "|") (join_parts (p ∷ ps));
  reads = λ acc.
      ap (read_all (ready acc [] [])) (a.joins p)
      ∙ h acc (join_parts ps)
      ∙ a.reads (r ∷ acc)
      ∙ ap (λ x. some (choice x)) (reverse-cons-append r acc rs);
}

block-AreReadAs :
    (b : Option (Text × Text)) (ps : List Text) (rs : List Regex)
    → AreReadAs ps rs
    → AreReadAs (block_part b ++ ps) (block_regexes b ++ rs)
block-AreReadAs none ps rs a = a
block-AreReadAs (some (o, c)) ps rs a =
    part-AreReadAs _ (block_regex o c) ps rs (block-IsReadAs o c) a

line-AreReadAs :
    (l : Option Text) (ps : List Text) (rs : List Regex)
    → AreReadAs ps rs
    → AreReadAs (line_part l ++ ps) (line_regexes l ++ rs)
line-AreReadAs none ps rs a = a
line-AreReadAs (some t) ps rs a = part-AreReadAs _ (line_regex t) ps rs (line-IsReadAs t) a

strings-AreReadAs :
    (ts ps : List Text) (rs : List Regex)
    → AreReadAs ps rs
    → AreReadAs (map string_part ts ++ ps) (map string_regex ts ++ rs)
strings-AreReadAs [] ps rs a = a
strings-AreReadAs (t ∷ ts) ps rs a =
    part-AreReadAs (string_part t) (string_regex t) _ _ (string-IsReadAs t)
      (strings-AreReadAs ts ps rs a)

-- For any configuration, whatever its comment and string texts are, the pattern that `buildScanner`
-- writes is a valid regular expression, and it is the intended one: block comments, line comments,
-- the strings in order, numbers and words, with every text of the configuration taken literally.
pub build_scanner_lem : (cfg : LangConfig) → build_scanner cfg ≡ some (scanner cfg)
unfolding build_scanner scanner_pattern reg_exp
build_scanner_lem cfg =
    let strings = strings-AreReadAs cfg.string_chars _ _ last-AreReadAs in
    let lines = line-AreReadAs cfg.line_comment _ _ strings in
    (block-AreReadAs cfg.block_comment _ _ lines).reads []
