-- ===== src/Highlight/Regex/Sound.antt =====
-- What a match is, by recursion on the expression, and that the matcher finds nothing else.
use omarchy_hackertyper.Base.{
  ℕ, zero, suc, Bool, true, false, [], ◌∷◌, ◌++◌, reverse, Option, none, some, if◌then◌else◌,
  Bool-cases, Text, length, append_assoc, ◌≡◌, ◌⊎◌, refl, sym, ap, ◌∙◌, arith, inl, inr,
}
use mathlib.Core.List.{reverse-append}
use omarchy_hackertyper.Highlight.Regex.{
  CharSet, Regex, set, empty, end_of_input, boundary, seq, alt, star, lazy, holds, Cursor, cursor,
  is_boundary, Rest, Matcher, or_else, has_moved, greedy, reluctant, match_set, match_end,
  match_regex,
}

-- The text between two positions.
pub record Spans (c : Cursor) (w : Text) (c' : Cursor) : Type 0 where
  pub ahead : c.rest ≡ w ++ c'.rest
  pub behind : c'.before ≡ reverse w ++ c.before

pub Spans-refl : (c : Cursor) → Spans c [] c
Spans-refl c = record { ahead = refl; behind = refl }

pub Spans-trans : {c d e : Cursor} {v w : Text} → Spans c v d → Spans d w e → Spans c (v ++ w) e
Spans-trans {c} {d} {e} {v} {w} p q = record {
  ahead = p.ahead ∙ ap (◌++◌ v) q.ahead ∙ sym (append_assoc v w e.rest);
  behind =
      q.behind
      ∙ ap (◌++◌ (reverse w)) p.behind
      ∙ sym (append_assoc (reverse w) (reverse v) c.before)
      ∙ ap (λ u. u ++ c.before) (sym (reverse-append v w));
}

-- Rounds of a repetition.
pub data Star (R : Cursor → Text → Cursor → Type 0) : Cursor → Text → Cursor → Type 0 where
  stop : {c : Cursor} {w : Text} → w ≡ [] → Star R c w c
  more :
      {c d e : Cursor} {w : Text} (u v : Text) → w ≡ u ++ v → R c u d → Star R d v e → Star R c w e

-- The expression matches the text `w` between two positions.
abbrev pub Matches : Regex → Cursor → Text → Cursor → Type 0
Matches (set s) c w c' = (x : ℕ) × (w ≡ x ∷ []) × (holds s x ≡ true)
Matches empty c w c' = (w ≡ []) × (c' ≡ c)
Matches end_of_input c w c' = (w ≡ []) × (c' ≡ c) × (c.rest ≡ [])
Matches boundary c w c' = (w ≡ []) × (c' ≡ c) × (is_boundary c ≡ true)
Matches (seq r s) c w c' =
    (u : Text) × (v : Text) × (d : Cursor) × (w ≡ u ++ v) × Matches r c u d × Matches s d v c'
Matches (alt r s) c w c' = Matches r c w c' ⊎ Matches s c w c'
Matches (star r) c w c' = Star (Matches r) c w c'
Matches (lazy r) c w c' = Star (Matches r) c w c'

-- A matcher's success gives a position that its continuation accepts, and the text up to there.
pub record Success (R : Cursor → Text → Cursor → Type 0) (c : Cursor) (k : Rest) (o : Cursor)
    : Type 0 where
  pub text : Text
  pub stop : Cursor
  pub spans : Spans c text stop
  pub matches : R c text stop
  pub accepts : k stop ≡ some o

abbrev IsSound : (Cursor → Text → Cursor → Type 0) → Matcher → Type 0
IsSound R m = (c : Cursor) (k : Rest) (o : Cursor) → m c k ≡ some o → Success R c k o

or_else_cases :
    (a b : Option Cursor) (o : Cursor) → or_else a b ≡ some o → (a ≡ some o) ⊎ (b ≡ some o)
or_else_cases none b o h = inr h
or_else_cases (some a) b o h = inl h

if_some :
    (b : Bool) (a : Option Cursor) (o : Cursor) → (if b then a else none) ≡ some o → a ≡ some o
if_some true a o h = h
if_some false a o h = cc

module _ (R : Cursor → Text → Cursor → Type 0) where
  Star-stop : (c : Cursor) (k : Rest) (o : Cursor) → k c ≡ some o → Success (Star R) c k o
  Star-stop c k o h = record {
    text = [];
    stop = c;
    spans = Spans-refl c;
    matches = stop refl;
    accepts = h;
  }

  Star-more :
      (c d : Cursor) (u : Text) (k : Rest) (o : Cursor)
      → Spans c u d
      → R c u d
      → Success (Star R) d k o
      → Success (Star R) c k o
  Star-more c d u k o s r more' = record {
    text = u ++ more'.text;
    stop = more'.stop;
    spans = Spans-trans s more'.spans;
    matches = more u more'.text refl r more'.matches;
    accepts = more'.accepts;
  }

  module _ (body : Matcher) (sound : IsSound R body) where
    greedy-IsSound : (n : ℕ) → IsSound (Star R) (greedy body n)
    unfolding greedy
    greedy-IsSound zero c k o h = Star-stop c k o h
    greedy-IsSound (suc n) c k o h =
        elim (or_else_cases (body c (λ c'. if has_moved c c' then greedy body n c' k else none))
          (k c) o h) [
            | inr e ↦ Star-stop c k o e
            | inl e ↦
                let s = sound c (λ c'. if has_moved c c' then greedy body n c' k else none) o e in
                Star-more c s.stop s.text k o s.spans s.matches (
                  greedy-IsSound n s.stop k o
                    (if_some (has_moved c s.stop) (greedy body n s.stop k) o s.accepts))
          ]

    reluctant-IsSound : (n : ℕ) → IsSound (Star R) (reluctant body n)
    unfolding reluctant
    reluctant-IsSound zero c k o h = Star-stop c k o h
    reluctant-IsSound (suc n) c k o h =
        elim (or_else_cases (k c)
          (body c (λ c'. if has_moved c c' then reluctant body n c' k else none)) o h) [
            | inl e ↦ Star-stop c k o e
            | inr e ↦
                let s =
                  sound c (λ c'. if has_moved c c' then reluctant body n c' k else none) o e in
                Star-more c s.stop s.text k o s.spans s.matches (
                  reluctant-IsSound n s.stop k o
                    (if_some (has_moved c s.stop) (reluctant body n s.stop k) o s.accepts))
          ]

set-Success :
    (s : CharSet) (b r : Text) (k : Rest) (o : Cursor)
    → match_set s b r k ≡ some o
    → Success (Matches (set s)) (cursor b r) k o
set-Success s b [] k o h = cc
set-Success s b (x ∷ xs) k o h = elim (Bool-cases (holds s x)) [
  | inl e ↦ record {
    text = x ∷ [];
    stop = cursor (x ∷ b) xs;
    spans = record { ahead = refl; behind = refl };
    matches = (x, refl, e);
    accepts = ground arith;
  }
  | inr e ↦ absurd (ground arith)
]

end-Success :
    (b r : Text) (k : Rest) (o : Cursor)
    → match_end r (cursor b r) k ≡ some o
    → Success (Matches end_of_input) (cursor b r) k o
end-Success b [] k o h = record {
  text = [];
  stop = cursor b [];
  spans = Spans-refl _;
  matches = (refl, refl, refl);
  accepts = h;
}
end-Success b (x ∷ xs) k o h = cc

-- Whatever the matcher accepts is a match of the expression at that place.
pub match_regex-IsSound : (r : Regex) → IsSound (Matches r) (match_regex r)
unfolding match_regex
match_regex-IsSound (set s) c k o h = set-Success s c.before c.rest k o h
match_regex-IsSound empty c k o h = record {
  text = [];
  stop = c;
  spans = Spans-refl c;
  matches = (refl, refl);
  accepts = h;
}
match_regex-IsSound end_of_input c k o h = end-Success c.before c.rest k o h
match_regex-IsSound boundary c k o h = elim (Bool-cases (is_boundary c)) [
  | inl e ↦ record {
    text = [];
    stop = c;
    spans = Spans-refl c;
    matches = (refl, refl, e);
    accepts = if_some (is_boundary c) (k c) o h;
  }
  | inr e ↦ absurd (ground arith)
]
match_regex-IsSound (seq r s) c k o h =
    let a = match_regex-IsSound r c (λ c'. match_regex s c' k) o h in
    let b = match_regex-IsSound s a.stop k o a.accepts in
    record {
      text = a.text ++ b.text;
      stop = b.stop;
      spans = Spans-trans a.spans b.spans;
      matches = (a.text, b.text, a.stop, refl, a.matches, b.matches);
      accepts = b.accepts;
    }
match_regex-IsSound (alt r s) c k o h =
    elim (or_else_cases (match_regex r c k) (match_regex s c k) o h) [
      | inl e ↦
          let a = match_regex-IsSound r c k o e in
          record {
            text = a.text;
            stop = a.stop;
            spans = a.spans;
            matches = inl a.matches;
            accepts = a.accepts;
          }
      | inr e ↦
          let a = match_regex-IsSound s c k o e in
          record {
            text = a.text;
            stop = a.stop;
            spans = a.spans;
            matches = inr a.matches;
            accepts = a.accepts;
          }
    ]
match_regex-IsSound (star r) c k o h =
    greedy-IsSound (Matches r) (match_regex r) (match_regex-IsSound r) (length c.rest) c k o h
match_regex-IsSound (lazy r) c k o h =
    reluctant-IsSound (Matches r) (match_regex r) (match_regex-IsSound r) (length c.rest) c k o h
