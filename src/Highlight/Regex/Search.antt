-- ===== src/Highlight/Regex/Search.antt =====
-- The leftmost match, as the search finds it.
use omarchy_hackertyper.Base.{
  ℕ, Bool, true, not, [], ◌∷◌, none, some, Option-cases, Bool-cases, Text, all, ◌≡◌, ◌≢◌, refl,
  arith, inl, inr,
}
use omarchy_hackertyper.Highlight.Regex.Sound.{
  Spans, Spans-refl, Spans-trans, Matches, match_regex-IsSound,
}
use omarchy_hackertyper.Highlight.Regex.{Regex, Cursor, cursor, match_regex, Match, search_regex}

-- Wherever the next code unit passes the test, the expression matches.
abbrev pub Catches : (ℕ → Bool) → Regex → Type 0
Catches p r =
    (c : Cursor) (x : ℕ) (xs : Text) → c.rest ≡ x ∷ xs → p x ≡ true → match_regex r c some ≢ none

-- No match is empty.
abbrev pub NeverEmpty : Regex → Type 0
NeverEmpty r = (c : Cursor) (w : Text) (c' : Cursor) → Matches r c w c' → w ≢ []

abbrev pub AllSkip : (ℕ → Bool) → Text → Type 0
AllSkip p t = all (λ x. not (p x)) t ≡ true

missed :
    (r : Regex) (p : ℕ → Bool) (b xs : Text) (x : ℕ) (t : Text)
    → match_regex r (cursor b (x ∷ xs)) some ≡ none
    → Catches p r
    → AllSkip p t
    → AllSkip p (x ∷ t)
missed r p b xs x t e catches a = elim (Bool-cases (p x)) [
  | inl h ↦ absurd (catches (cursor b (x ∷ xs)) x xs refl h e)
  | inr h ↦ rw (h, a) refl
]

-- A match of the expression, behind some text that is skipped.
pub record Hit (r : Regex) (c : Cursor) (m : Match) : Type 0 where
  pub skipped : Text
  pub text : Text
  pub skips : Spans c skipped m.start
  pub spans : Spans m.start text m.stop
  pub matches : Matches r m.start text m.stop
  -- The search may start behind the position, past an empty match.
  pub misses : (p : ℕ → Bool) → Catches p r → NeverEmpty r → AllSkip p skipped

Hit-here :
    (r : Regex) (c stop : Cursor)
    → match_regex r c some ≡ some stop
    → Hit r c (record { start = c; stop = stop })
Hit-here r c stop h =
    let s = match_regex-IsSound r c some stop h in
    let e : s.stop ≡ stop = ground (arith, s.accepts) in
    rw (← e) (record {
      skipped = [];
      text = s.text;
      skips = Spans-refl c;
      spans = s.spans;
      matches = s.matches;
      misses = λ p h n. refl;
    })

pub search_regex-Hit :
    (r : Regex) (b rest : Text) (m : Match)
    → search_regex r b rest ≡ some m
    → Hit r (cursor b rest) m
unfolding search_regex
search_regex-Hit r b [] m h = elim (Option-cases (match_regex r (cursor b []) some)) [
  | inl e ↦ absurd (ground arith)
  | inr (stop, e) ↦
      let found : record { start = cursor b []; stop = stop } ≡ m = ground arith in
      rw (← found) (Hit-here r (cursor b []) stop e)
]
search_regex-Hit r b (x ∷ xs) m h = elim (Option-cases (match_regex r (cursor b (x ∷ xs)) some)) [
  | inl e ↦
      let later = search_regex-Hit r (x ∷ b) xs m (ground arith) in
      record {
        skipped = x ∷ later.skipped;
        text = later.text;
        skips = Spans-trans {v = x ∷ []} (record { ahead = refl; behind = refl }) later.skips;
        spans = later.spans;
        matches = later.matches;
        misses = λ p h n. missed r p b xs x later.skipped e h (later.misses p h n);
      }
  | inr (stop, e) ↦
      let found : record { start = cursor b (x ∷ xs); stop = stop } ≡ m = ground arith in
      rw (← found) (Hit-here r (cursor b (x ∷ xs)) stop e)
]

-- A search that finds nothing has passed over nothing that the expression catches.
pub search_regex-none :
    (r : Regex) (b rest : Text) (p : ℕ → Bool)
    → search_regex r b rest ≡ none
    → Catches p r
    → AllSkip p rest
unfolding search_regex
search_regex-none r b [] p h catches = refl
search_regex-none r b (x ∷ xs) p h catches =
    elim (Option-cases (match_regex r (cursor b (x ∷ xs)) some)) [
      | inl e ↦
          missed r p b xs x xs e catches (search_regex-none r (x ∷ b) xs p (rw e at h) catches)
      | inr (stop, e) ↦ absurd (ground arith)
    ]
