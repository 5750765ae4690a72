-- ===== src/Highlight/Lexer/Scanning.antt =====
-- The loop of `tokenize` finds the tokens that the lexer finds.
use omarchy_hackertyper.Base.{
  ℕ, zero, suc, ◌+◌, ◌<◌, ◌≤◌, false, List, [], ◌∷◌, ◌++◌, append-nil, append_assoc, Option, none,
  some, Option-cases, ◌==◌, Text, length, length-append, contains, ◌≡◌, ◌≢◌, refl, sym, ap, ◌∙◌,
  arith, inl, inr,
}
use omarchy_hackertyper.Highlight.Config.{LangConfig, inherited_names}
use omarchy_hackertyper.Highlight.Lexer.Classes.{find-IsFound}
use omarchy_hackertyper.Highlight.Lexer.Finding.{find-match}
use omarchy_hackertyper.Highlight.Lexer.Parts.{stop_of}
use omarchy_hackertyper.Highlight.Lexer.{Found, find, lex, lex_text}
use omarchy_hackertyper.Highlight.Regex.Runs.{passed, passed_lem}
use omarchy_hackertyper.Highlight.Regex.Sound.{Spans, Spans-refl, Spans-trans, match_regex-IsSound}
use omarchy_hackertyper.Highlight.Regex.{Regex, Cursor, cursor, match_regex, search_regex}
use omarchy_hackertyper.Highlight.Scanner.Compile.{scanner}
use omarchy_hackertyper.Highlight.Scanner.{Cache, classify}
use omarchy_hackertyper.Highlight.Tokenize.Apart.{Selected-IsApart}
use omarchy_hackertyper.Highlight.Tokenize.Cached.{IsValid, Selected, tokenize-Tokenized}
use omarchy_hackertyper.Highlight.Tokenize.Rounds.{between-Spans, gap-Spans}
use omarchy_hackertyper.Highlight.Tokenize.Shapes.{IsApart}
use omarchy_hackertyper.Highlight.Tokenize.Tokens.{scanner-NeverEmpty}
use omarchy_hackertyper.Highlight.Tokenize.{
  Token, between, exec, rest_token, start_of, scan, scan_text, tokenize,
}

passed-Spans : (b t w r : Text) → w ++ r ≡ t → Spans (cursor b t) w (cursor (passed b w) r)
passed-Spans b t w r e = record { ahead = sym e; behind = passed_lem b w }

not_empty : (t : Text) → t ≢ [] → (length t == 0) ≡ false
not_empty [] h = absurd (h refl)
not_empty (x ∷ t) h = ground arith

-- The search goes on where nothing matches, and stops where something does.
search_on :
    (r : Regex) (b xs : Text) (x : ℕ)
    → match_regex r (cursor b (x ∷ xs)) some ≡ none
    → search_regex r b (x ∷ xs) ≡ search_regex r (x ∷ b) xs
unfolding search_regex
search_on r b xs x h = rw h refl

search_here :
    (r : Regex) (b t : Text) (stop : Cursor)
    → match_regex r (cursor b t) some ≡ some stop
    → search_regex r b t ≡ some (record { start = cursor b t; stop = stop })
unfolding search_regex
search_here r b [] stop h = rw h refl
search_here r b (x ∷ xs) stop h = rw h refl

search_end :
    (r : Regex) (b : Text) → match_regex r (cursor b []) some ≡ none → search_regex r b [] ≡ none
unfolding search_regex
search_end r b h = rw h refl

module _ (cfg : LangConfig) (apart : IsApart cfg) where
  find-ne-nil :
      (b t : Text) (g : Found) → find cfg b t ≡ some g → g.text ++ g.rest ≡ t → g.text ≢ []
  find-ne-nil b t g e s empty =
      let stop = cursor (passed b g.text) g.rest in
      let found = find-match cfg b t apart.quotes ∙ ap (stop_of b) e in
      let m = match_regex-IsSound (scanner cfg) (cursor b t) some stop found in
      let same : m.stop ≡ stop = ground (arith, m.accepts) in
      let text : m.text ≡ g.text =
        sym (between-Spans m.spans)
        ∙ ap (between (cursor b t)) same
        ∙ between-Spans (passed-Spans b t g.text g.rest s) in
      scanner-NeverEmpty cfg apart (cursor b t) m.text m.stop m.matches (text ∙ empty)

  known_class :
      (b t : Text) (g : Found)
      → find cfg b t ≡ some g
      → (g.text ++ g.rest ≡ t) × (classify cfg g.text ≡ g.type)
  known_class b t g e = rw e at (find-IsFound cfg apart b t)

  scan_same :
      (f : ℕ) (le : Cursor) (i j : Option Cursor) (tokens : List Token)
      → exec (scanner cfg) i ≡ exec (scanner cfg) j
      → scan (suc f) cfg (scanner cfg) le i tokens ≡ scan (suc f) cfg (scanner cfg) le j tokens
  unfolding scan
  scan_same f le i j tokens e = rw (e, scan) refl

  scan_finished :
      (f : ℕ) (le : Cursor) (i : Option Cursor) (tokens : List Token)
      → exec (scanner cfg) i ≡ none
      → scan (suc f) cfg (scanner cfg) le i tokens ≡ some (tokens ++ rest_token le.rest)
  unfolding scan
  scan_finished f le i tokens e = rw (e, scan) refl

  -- A round that finds a piece of the text.
  scan_found :
      (f : ℕ) (le : Cursor) (p b t : Text) (tokens : List Token) (g : Found)
      → Spans le p (cursor b t)
      → find cfg b t ≡ some g
      → scan (suc f) cfg (scanner cfg) le (some (cursor b t)) tokens
        ≡ scan f cfg
            (scanner cfg)
            (cursor (passed b g.text) g.rest)
            (some (cursor (passed b g.text) g.rest))
            (tokens ++ (rest_token p ++ (record { type = g.type; text = g.text } ∷ [])))
  unfolding scan
  scan_found f le p b t tokens g s e =
      let (split, class) = known_class b t g e in
      let stop = cursor (passed b g.text) g.rest in
      let text : between (cursor b t) stop ≡ g.text =
        between-Spans (passed-Spans b t g.text g.rest split) in
      let found =
        search_here (scanner cfg) b t stop (find-match cfg b t apart.quotes ∙ ap (stop_of b) e) in
      let moved = not_empty g.text (find-ne-nil b t g e split) in
      rw (found, text, moved, class, gap-Spans p s) refl

  length-find : (b t : Text) (g : Found) → find cfg b t ≡ some g → length g.rest < length t
  length-find b t g e =
      let (split, class) = known_class b t g e in
      let moved = not_empty g.text (find-ne-nil b t g e split) in
      let sum = ap length (sym split) ∙ length-append g.text g.rest in ground (arith, moved, sum)

  lex_on :
      (n : ℕ) (b p xs : Text) (x : ℕ)
      → find cfg b (x ∷ xs) ≡ none
      → lex (suc n) cfg b p (x ∷ xs) ≡ lex n cfg (x ∷ b) (p ++ x ∷ []) xs
  unfolding lex
  lex_on n b p xs x e = rw (e, lex) refl

  lex_found :
      (n : ℕ) (b p xs : Text) (x : ℕ) (g : Found)
      → find cfg b (x ∷ xs) ≡ some g
      → lex (suc n) cfg b p (x ∷ xs)
        ≡ rest_token p
          ++ (record { type = g.type; text = g.text } ∷ lex n cfg (passed b g.text) [] g.rest)
  unfolding lex
  lex_found n b p xs x g e = rw (e, lex, passed_lem b g.text) refl

  scan-lex :
      (n f : ℕ) (le : Cursor) (p b t : Text) (tokens : List Token)
      → length t < n
      → length t ≤ f
      → Spans le p (cursor b t)
      → scan (suc f) cfg (scanner cfg) le (some (cursor b t)) tokens
        ≡ some (tokens ++ lex n cfg b p t)
  scan-lex zero f le p b t tokens l k s = absurd (omega arith)
  scan-lex (suc n) f le p b [] tokens l k s = elim (Option-cases (find cfg b [])) [
    | inl e ↦
        let missed =
          search_end (scanner cfg) b (find-match cfg b [] apart.quotes ∙ ap (stop_of b) e) in
        scan_finished f le (some (cursor b [])) tokens missed
        ∙ ap (λ u. some (tokens ++ rest_token u)) (s.ahead ∙ append-nil p)
        ∙ unfold lex in refl
    | inr (g, e) ↦
        let (split, class) = known_class b [] g e in
        absurd (find-ne-nil b [] g e split (nothing g.text g.rest split))
  ]
    where
      nothing : (v w : Text) → v ++ w ≡ [] → v ≡ []
      nothing [] w h = refl
      nothing (x ∷ v) w h = cc
  scan-lex (suc n) zero le p b (x ∷ xs) tokens l k s = absurd (omega arith)
  scan-lex (suc n) (suc f) le p b (x ∷ xs) tokens l k s =
      elim (Option-cases (find cfg b (x ∷ xs))) [
        | inl e ↦
            let missed =
              search_on (scanner cfg) b xs x
                (find-match cfg b (x ∷ xs) apart.quotes ∙ ap (stop_of b) e) in
            let on = Spans-trans s (passed-Spans b (x ∷ xs) (x ∷ []) xs refl) in
            scan_same (suc f) le (some (cursor b (x ∷ xs))) (some (cursor (x ∷ b) xs)) tokens missed
            ∙ scan-lex n (suc f) le (p ++ x ∷ []) (x ∷ b) xs tokens (omega arith) (omega arith) on
            ∙ ap (λ ts. some (tokens ++ ts)) (sym (lex_on n b p xs x e))
        | inr (g, e) ↦
            let stop = cursor (passed b g.text) g.rest in
            let less = length-find b (x ∷ xs) g e in
            let token : Token = record { type = g.type; text = g.text } in
            let later = lex n cfg (passed b g.text) [] g.rest in
            scan_found (suc f) le p b (x ∷ xs) tokens g s e
            ∙ scan-lex n f stop [] (passed b g.text) g.rest
                (tokens ++ (rest_token p ++ (token ∷ []))) (omega arith) (omega arith)
                (Spans-refl stop)
            ∙ ap some (
                append_assoc tokens (rest_token p ++ (token ∷ [])) later
                ∙ ap (◌++◌ tokens) (
                    append_assoc (rest_token p) (token ∷ []) later
                    ∙ sym (lex_found n b p xs x g e)))
      ]

  scan_text-lex_text : (t : Text) → scan_text cfg (scanner cfg) t ≡ some (lex_text cfg t)
  unfolding scan_text lex_text
  scan_text-lex_text t =
      ap (λ n. scan n cfg (scanner cfg) (start_of t) (some (start_of t)) []) (two (length t))
      ∙ scan-lex (suc (length t)) (suc (length t)) (start_of t) [] [] t [] (omega arith)
          (omega arith) (Spans-refl (start_of t))
    where
      two : (n : ℕ) → n + 2 ≡ suc (suc n)
      two n = omega arith

returned :
    (ts us : List Token) (later : Cache)
    → some ts ≡ some us
    → ◌≡◌ {A = Option (List Token × Cache)} (some (ts, later)) (some (us, later))
returned ts us later e = cc

-- For every text, every valid cache and every language name that no object inherits, `tokenize` returns
-- exactly the tokens that the lexer without regular expressions finds for the configuration that the
-- language selects, and it keeps the cache valid. At each place the lexer takes the first of these that
-- begins there, or else moves one code unit on: a block comment, up to its closing text or the end; a
-- line comment, up to the newline; a string, up to its quote or the end, where a backslash takes the
-- next code unit with it, and nothing is found if that is a line end or missing; a decimal number with
-- no word before or behind it; a word.
pub tokenize-lex_text :
    (cache : Cache) (text language : Text)
    → IsValid cache
    → contains inherited_names language ≡ false
    → (key : Text) × (cfg : LangConfig) × (later : Cache) × Selected language key cfg
      × (tokenize cache text language ≡ some (lex_text cfg text, later))
      × IsValid later
tokenize-lex_text cache text language v h =
    let t = tokenize-Tokenized cache text language v h in
    let same = sym t.fresh ∙ scan_text-lex_text t.cfg (Selected-IsApart t.selected) text in
    (
      t.key,
      t.cfg,
      t.later,
      t.selected,
      t.returns ∙ returned t.tokens (lex_text t.cfg text) t.later same,
      t.still_valid,
    )
