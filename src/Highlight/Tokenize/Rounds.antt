-- ===== src/Highlight/Tokenize/Rounds.antt =====
-- The rounds of the tokenizer's loop: how they end, and what each adds.
use omarchy_hackertyper.Base.{
  ℕ, true, zero, suc, ◌+◌, ◌-◌, ◌<◌, ◌≤◌, List, [], ◌∷◌, ◌++◌, Option, none, some, Option-cases,
  ◌==◌, Bool-cases, Text, length, take-length-append, length-append, append_assoc, ◌≡◌, refl, sym,
  ap, ◌∙◌, arith, inl, inr,
}
use omarchy_hackertyper.Highlight.Config.{LangConfig}
use omarchy_hackertyper.Highlight.Regex.Search.{
  Hit, search_regex-Hit, NeverEmpty, search_regex-none,
}
use omarchy_hackertyper.Highlight.Regex.Sound.{Spans, Spans-refl, Spans-trans}
use omarchy_hackertyper.Highlight.Regex.{Regex, Cursor, cursor, Match}
use omarchy_hackertyper.Highlight.Tokenize.{
  Token, between, step_from, exec, next_index, gap, rest_token, scan, rounds, start_of, scan_text,
}
use omarchy_hackertyper.Highlight.Tokenize.Lossless.{token_of, IsClean, Scanned, done, hit}

pub length-Spans :
    {c c' : Cursor} {w : Text} → Spans c w c' → length c.rest ≡ length w + length c'.rest
length-Spans {c} {c'} {w} s = ap length s.ahead ∙ length-append w c'.rest

pub between-Spans : {c c' : Cursor} {w : Text} → Spans c w c' → between c c' ≡ w
between-Spans {c} {c'} {w} s =
    let e : length c.rest - length c'.rest ≡ length w = omega (arith, length-Spans s) in
    rw (e, s.ahead) (take-length-append w c'.rest)

pub gap-Spans : {c c' : Cursor} (w : Text) → Spans c w c' → gap c c' ≡ rest_token w
gap-Spans {c} {c'} [] s = ground (arith, length-Spans s)
gap-Spans {c} {c'} (x ∷ xs) s = ground (arith, length-Spans s, between-Spans s)

-- How many rounds may still follow.
abbrev rounds_left : Option Cursor → ℕ
rounds_left none = 0
rounds_left (some c) = suc (length c.rest)

-- The scanner stands at the end of the last match, or behind it if that match was empty.
abbrev Ahead : Regex → Cursor → Option Cursor → Type 0
Ahead scanner c none = NeverEmpty scanner → ⊥
Ahead scanner c (some d) = (w : Text) × Spans c w d × (NeverEmpty scanner → w ≡ [])

step_from-Ahead :
    (scanner : Regex) (b r : Text)
    → (NeverEmpty scanner → ⊥)
    → Ahead scanner (cursor b r) (step_from b r)
step_from-Ahead scanner b [] never = never
step_from-Ahead scanner b (x ∷ xs) never =
    (x ∷ [], record { ahead = refl; behind = refl }, λ n. absurd (never n))

rounds_left-step_from : (b r : Text) → rounds_left (step_from b r) ≤ length r
rounds_left-step_from b [] = omega arith
rounds_left-step_from b (x ∷ xs) = omega arith

no_text : (t : Text) → (length t == 0) ≡ true → t ≡ []
no_text [] e = refl
no_text (x ∷ xs) e = ground arith

next_index-Ahead :
    (scanner : Regex) (c : Cursor) (m : Match)
    → Hit scanner c m
    → Ahead scanner m.stop (next_index m)
next_index-Ahead scanner c m h = elim (Bool-cases (length (between m.start m.stop) == 0)) [
  | inl e ↦
      let empty : h.text ≡ [] = sym (between-Spans h.spans) ∙ no_text (between m.start m.stop) e in
      rw e (
        step_from-Ahead scanner m.stop.before m.stop.rest
          (λ n. n m.start h.text m.stop h.matches empty))
  | inr e ↦ rw e ([], Spans-refl m.stop, λ n. refl)
]

rounds_left-next_index :
    (m : Match) (c : Cursor) (v w : Text)
    → Spans c v m.start
    → Spans m.start w m.stop
    → rounds_left (next_index m) < rounds_left (some c)
rounds_left-next_index m c v w p q = elim (Bool-cases (length (between m.start m.stop) == 0)) [
  | inl e ↦ rw e (
      omega
        (arith, length-Spans p, length-Spans q, rounds_left-step_from m.stop.before m.stop.rest))
  | inr e ↦ rw e (ground (arith, length-Spans p, length-Spans q, between-Spans q))
]

-- What a run of the loop adds to the tokens that it has.
pub record Run (cfg : LangConfig) (scanner : Regex) (c : Cursor) (tokens : List Token)
    (result : Option (List Token)) : Type 0 where
  pub added : List Token
  pub returns : result ≡ some (tokens ++ added)
  pub scanned : Scanned cfg scanner c added

module _ (cfg : LangConfig) (scanner : Regex) where
  exec-IsClean :
      (c : Cursor) (index : Option Cursor)
      → Ahead scanner c index
      → exec scanner index ≡ none
      → IsClean scanner c.rest
  exec-IsClean c none a e p h n = absurd (a n)
  exec-IsClean c (some d) (w, s, at_end) e p h n =
      let same : c.rest ≡ d.rest = s.ahead ∙ ap (λ u. u ++ d.rest) (at_end n) in
      rw same (search_regex-none scanner d.before d.rest p e h)

  scan-end :
      (fuel : ℕ) (c : Cursor) (index : Option Cursor) (tokens : List Token)
      → Ahead scanner c index
      → exec scanner index ≡ none
      → Run cfg scanner c tokens (scan (suc fuel) cfg scanner c index tokens)
  unfolding scan
  scan-end fuel c index tokens a e = record {
    added = rest_token c.rest;
    returns = rw (e, scan);
    scanned = done refl (exec-IsClean c index a e);
  }

  -- The match that the loop goes on with, seen from the end of the last one.
  exec-Hit :
      (c : Cursor) (index : Option Cursor) (m : Match)
      → Ahead scanner c index
      → exec scanner index ≡ some m
      → Hit scanner c m × (rounds_left (next_index m) < rounds_left index)
  exec-Hit c none m a e = cc
  exec-Hit c (some d) m (w, s, at_end) e =
      let h = search_regex-Hit scanner d.before d.rest m e in
      (
        record {
          skipped = w ++ h.skipped;
          text = h.text;
          skips = Spans-trans s h.skips;
          spans = h.spans;
          matches = h.matches;
          misses = λ p k n. rw (at_end n) (h.misses p k n);
        },
        rounds_left-next_index m d h.skipped h.text h.skips h.spans,
      )

  abbrev with_match : Cursor → List Token → Match → List Token
  with_match c tokens m = tokens ++ (gap c m.start ++ (token_of cfg (between m.start m.stop) ∷ []))

  scan-Hit :
      (fuel : ℕ) (c : Cursor) (index : Option Cursor) (tokens : List Token) (m : Match)
      → exec scanner index ≡ some m
      → Hit scanner c m
      → Run cfg scanner m.stop
          (with_match c tokens m)
          (scan fuel cfg scanner m.stop (next_index m) (with_match c tokens m))
      → Run cfg scanner c tokens (scan (suc fuel) cfg scanner c index tokens)
  unfolding scan
  scan-Hit fuel c index tokens m e h r = record {
    added = gap c m.start ++ (token_of cfg (between m.start m.stop) ∷ r.added);
    returns =
        rw (e, scan)
          (r.returns
            ∙ ap some (
                append_assoc tokens (gap c m.start ++ (token_of cfg (between m.start m.stop) ∷ []))
                  r.added
                ∙ ap (◌++◌ tokens) (
                    append_assoc (gap c m.start) (token_of cfg (between m.start m.stop) ∷ [])
                      r.added)));
    scanned =
        hit h.skipped m.start h.text m.stop r.added h.skips h.spans h.matches h.misses
          (rw (gap-Spans h.skipped h.skips, between-Spans h.spans) refl) r.scanned;
  }

  scan-Run :
      (fuel : ℕ) (c : Cursor) (index : Option Cursor) (tokens : List Token)
      → rounds_left index < fuel
      → Ahead scanner c index
      → Run cfg scanner c tokens (scan fuel cfg scanner c index tokens)
  scan-Run zero c index tokens l a = absurd (omega arith)
  scan-Run (suc fuel) c index tokens l a = elim (Option-cases (exec scanner index)) [
    | inl e ↦ scan-end fuel c index tokens a e
    | inr (m, e) ↦
        let (h, less) = exec-Hit c index m a e in
        scan-Hit fuel c index tokens m e h (
          scan-Run fuel m.stop (next_index m) (with_match c tokens m) (omega arith)
            (next_index-Ahead scanner c m h))
  ]

  -- The bound on the rounds suffices for every text and every scanner.
  pub scan_text-Run :
      (text : Text) → Run cfg scanner (start_of text) [] (scan_text cfg scanner text)
  unfolding scan_text
  scan_text-Run text =
      scan-Run (rounds text) (start_of text) (some (start_of text)) [] (omega arith)
        ([], Spans-refl (start_of text), λ n. refl)

-- For any text and any scanner, also one that matches the empty text, the loop of `tokenize` comes to an
-- end within the bound on its rounds.
pub scan_text-returns :
    (cfg : LangConfig) (scanner : Regex) (text : Text)
    → (tokens : List Token) × (scan_text cfg scanner text ≡ some tokens)
scan_text-returns cfg scanner text = let r = scan_text-Run cfg scanner text in (r.added, r.returns)
