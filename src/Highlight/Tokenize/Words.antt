-- ===== src/Highlight/Tokenize/Words.antt =====
-- No letter is left out of the matches: at a letter the pattern of any language matches, if nothing
-- else then a word.
use omarchy_hackertyper.Base.{
  ℕ, Bool, zero, suc, List, [], ◌∷◌, ◌++◌, Option, none, some, length, map, append_assoc, subst,
  ◌≡◌, ◌≢◌,
}
use omarchy_hackertyper.Highlight.Config.{LangConfig}
use omarchy_hackertyper.Highlight.Regex.Search.{Catches}
use omarchy_hackertyper.Highlight.Regex.{
  Cursor, cursor, Rest, Matcher, Regex, or_else, greedy, is_letter, match_regex, holds, set,
  word_part, choice,
}
use omarchy_hackertyper.Highlight.Scanner.Compile.{
  scanner, block_regexes, line_regexes, string_regex, number_regex, word_regex,
}

or_else-none : (a b : Option Cursor) → b ≢ none → or_else a b ≢ none
or_else-none none b h e = h e
or_else-none (some c) b h e = cc

greedy-none :
    (body : Matcher) (n : ℕ) (c : Cursor) (k : Rest) → k c ≢ none → greedy body n c k ≢ none
unfolding greedy
greedy-none body zero c k h = h
greedy-none body (suc n) c k h = or_else-none _ (k c) h

word_regex-Catches : Catches is_letter word_regex
unfolding match_regex holds
word_regex-Catches c x xs e h =
    rw (e, h)
      (greedy-none (match_regex (set word_part)) (length xs) (cursor (x ∷ c.before) xs)
        (λ d. some d) (λ z. cc))

choice-Catches :
    (p : ℕ → Bool) (r s : Regex) (rs : List Regex)
    → Catches p (choice (s ∷ rs))
    → Catches p (choice (r ∷ s ∷ rs))
unfolding match_regex
choice-Catches p r s rs h c x xs e t = or_else-none _ _ (h c x xs e t)

-- The last of some expressions decides.
append-Catches :
    (p : ℕ → Bool) (qs rs : List Regex) (s : Regex)
    → Catches p (choice (s ∷ rs))
    → Catches p (choice (qs ++ s ∷ rs))
append-Catches p [] rs s h = h
append-Catches p (q ∷ []) rs s h = choice-Catches p q s rs h
append-Catches p (q ∷ r ∷ qs) rs s h =
    choice-Catches p q r (qs ++ s ∷ rs) (append-Catches p (r ∷ qs) rs s h)

pub scanner-Catches : (cfg : LangConfig) → Catches is_letter (scanner cfg)
scanner-Catches cfg =
    let blocks = block_regexes cfg.block_comment in
    let lines = line_regexes cfg.line_comment in
    let strings = map string_regex cfg.string_chars in
    let last_word : (blocks ++ (lines ++ (strings ++ number_regex ∷ []))) ++ word_regex ∷ []
        ≡ blocks ++ (lines ++ (strings ++ number_regex ∷ word_regex ∷ [])) =
      simp append_assoc in
    subst (λ rs. Catches is_letter (choice rs)) last_word
      (append-Catches is_letter (blocks ++ (lines ++ (strings ++ number_regex ∷ []))) [] word_regex
        word_regex-Catches)
