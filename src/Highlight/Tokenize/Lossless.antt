-- ===== src/Highlight/Tokenize/Lossless.antt =====
-- The text, cut up into tokens: matches of the scanner with plain text between them.
use omarchy_hackertyper.Base.{
  ℕ, Bool, List, [], ◌∷◌, ◌++◌, Text, append-nil, append_assoc, ◌≡◌, refl, sym, ap, ◌∙◌,
}
use omarchy_hackertyper.Highlight.Config.{LangConfig}
use omarchy_hackertyper.Highlight.Regex.Search.{Catches, NeverEmpty, AllSkip}
use omarchy_hackertyper.Highlight.Regex.Sound.{Spans, Matches}
use omarchy_hackertyper.Highlight.Regex.{Regex, Cursor}
use omarchy_hackertyper.Highlight.Scanner.{classify}
use omarchy_hackertyper.Highlight.Tokenize.{Token, rest_token}

-- The texts of the tokens, put together.
abbrev pub text_of : List Token → Text
text_of [] = []
text_of (t ∷ ts) = t.text ++ text_of ts

abbrev pub token_of : LangConfig → Text → Token
token_of cfg match = record { type = classify cfg match; text = match }

-- Text that is left out of the matches has nothing that the scanner catches.
abbrev pub IsClean : Regex → Text → Type 0
IsClean scanner t = (p : ℕ → Bool) → Catches p scanner → NeverEmpty scanner → AllSkip p t

-- The tokens of the text from a position on: matches of the scanner, each classified, with the
-- text between them as plain tokens, none of which is empty.
pub data Scanned (cfg : LangConfig) (scanner : Regex) : Cursor → List Token → Type 0 where
  done :
      {c : Cursor} {ts : List Token}
      → ts ≡ rest_token c.rest
      → IsClean scanner c.rest
      → Scanned cfg scanner c ts
  hit :
      {c : Cursor} {ts : List Token} (skipped : Text) (start : Cursor) (match : Text)
      (stop : Cursor) (later : List Token)
      → Spans c skipped start
      → Spans start match stop
      → Matches scanner start match stop
      → IsClean scanner skipped
      → ts ≡ rest_token skipped ++ (token_of cfg match ∷ later)
      → Scanned cfg scanner stop later
      → Scanned cfg scanner c ts

text_of-append : (ts us : List Token) → text_of (ts ++ us) ≡ text_of ts ++ text_of us
text_of-append [] us = refl
text_of-append (t ∷ ts) us =
    ap (◌++◌ t.text) (text_of-append ts us) ∙ sym (append_assoc t.text (text_of ts) (text_of us))

text_of-rest_token : (s : Text) → text_of (rest_token s) ≡ s
text_of-rest_token [] = refl
text_of-rest_token (x ∷ xs) = append-nil (x ∷ xs)

pub Scanned-text_of :
    {cfg : LangConfig} {scanner : Regex} {c : Cursor} {ts : List Token}
    → Scanned cfg scanner c ts
    → text_of ts ≡ c.rest
Scanned-text_of {c} (done e _) = rw e (text_of-rest_token c.rest)
Scanned-text_of {cfg} (hit skipped start match stop later p q _ _ e rest) = rw e (
    text_of-append (rest_token skipped) (token_of cfg match ∷ later)
    ∙ ap (λ u. u ++ (match ++ text_of later)) (text_of-rest_token skipped)
    ∙ ap (λ u. skipped ++ (match ++ u)) (Scanned-text_of rest)
    ∙ ap (◌++◌ skipped) (sym q.ahead)
    ∙ sym p.ahead)
