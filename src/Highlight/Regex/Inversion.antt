-- ===== src/Highlight/Regex/Inversion.antt =====
-- What the matches of composed expressions look like.
use omarchy_hackertyper.Base.{
  ℕ, true, List, [], ◌∷◌, ◌++◌, map, Text, all, all-append, ◌≡◌, ◌≢◌, ◌⊎◌, refl, ap, ◌∙◌, arith,
  inl, inr, append-nil,
}
use omarchy_hackertyper.Highlight.Regex.Sound.{Star, stop, more, Matches}
use omarchy_hackertyper.Highlight.Regex.{
  CharSet, single, Regex, set, end_of_input, lazy, holds, Cursor, sequence, choice, plus,
}

-- The code units of a text, one after the other.
abbrev pub literal : Text → List Regex
literal = map (λ c. set (single c))

-- One of the expressions matches.
abbrev pub AnyMatch : List Regex → Cursor → Text → Cursor → Type 0
AnyMatch [] c w c' = ⊥
AnyMatch (r ∷ rs) c w c' = Matches r c w c' ⊎ AnyMatch rs c w c'

pub choice-AnyMatch :
    (rs : List Regex) (c : Cursor) (w : Text) (c' : Cursor)
    → rs ≢ []
    → Matches (choice rs) c w c'
    → AnyMatch rs c w c'
choice-AnyMatch [] c w c' h m = absurd (h refl)
choice-AnyMatch (r ∷ []) c w c' h m = inl m
choice-AnyMatch (r ∷ s ∷ rs) c w c' h (inl m) = inl m
choice-AnyMatch (r ∷ s ∷ rs) c w c' h (inr m) = inr (choice-AnyMatch (s ∷ rs) c w c' (λ e. cc) m)

pub AnyMatch-append :
    (rs ss : List Regex) (c : Cursor) (w : Text) (c' : Cursor)
    → AnyMatch (rs ++ ss) c w c'
    → AnyMatch rs c w c' ⊎ AnyMatch ss c w c'
AnyMatch-append [] ss c w c' m = inr m
AnyMatch-append (r ∷ rs) ss c w c' (inl m) = inl (inl m)
AnyMatch-append (r ∷ rs) ss c w c' (inr m) = elim (AnyMatch-append rs ss c w c' m) [
  | inl a ↦ inl (inr a)
  | inr b ↦ inr b
]

-- A match behind a literal text.
pub record Behind (rs : List Regex) (t w : Text) (c' : Cursor) : Type 0 where
  pub tail : Text
  pub from : Cursor
  pub splits : w ≡ t ++ tail
  pub matches : Matches (sequence rs) from tail c'

pub literal-Behind :
    (t : Text) (rs : List Regex) (c : Cursor) (w : Text) (c' : Cursor)
    → Matches (sequence (literal t ++ rs)) c w c'
    → Behind rs t w c'
unfolding holds
literal-Behind [] rs c w c' m = record { tail = w; from = c; splits = refl; matches = m }
literal-Behind (x ∷ t) rs c w c' (u, v, d, e, (y, one, same), m) =
    let b = literal-Behind t rs d v c' m in
    record { tail = b.tail; from = b.from; splits = ground (arith, b.splits); matches = b.matches }

pub Star-all :
    (s : CharSet) {c : Cursor} {w : Text} {c' : Cursor}
    → Star (Matches (set s)) c w c'
    → all (holds s) w ≡ true
Star-all s (stop e) = rw e
Star-all s (more u v e (x, one, h) rest) =
    rw e (all-append (holds s) u v ∙ (rw (one, h) (Star-all s rest)))

-- One code unit of a set, and then any number.
pub plus-all :
    (s : CharSet) (c : Cursor) (w : Text) (c' : Cursor)
    → Matches (plus (set s)) c w c'
    → (x : ℕ) × (xs : Text) × (w ≡ x ∷ xs) × (all (holds s) (x ∷ xs) ≡ true)
plus-all s c w c' (u, v, d, e, (x, one, h), rest) = (x, v, ground arith, rw (h, Star-all s rest))

literal_lem :
    (t : Text) (c : Cursor) (w : Text) (c' : Cursor) → Matches (sequence (literal t)) c w c' → w ≡ t
unfolding holds
literal_lem [] c w c' (e, _) = e
literal_lem (x ∷ t) c w c' (u, v, d, e, (y, one, same), m) = ground (arith, literal_lem t d v c' m)

-- A closing text, or the end of the input.
abbrev pub until : Text → Regex
until text = choice (sequence (literal text) ∷ sequence (end_of_input ∷ []) ∷ [])

abbrev pub Closes : Text → Text → Cursor → Type 0
Closes close_text tail c' = (tail ≡ close_text) ⊎ ((tail ≡ []) × (c'.rest ≡ []))

until-Closes :
    (t : Text) (c : Cursor) (w : Text) (c' : Cursor) → Matches (until t) c w c' → Closes t w c'
until-Closes t c w c' (inl m) = inl (literal_lem t c w c' m)
until-Closes t c w c' (inr (u, v, d, e, (a, same, at_end), (b, same'))) =
    inr (ground arith, ap (λ x. x.rest) (same' ∙ same) ∙ at_end)

-- Anything up to a closing text.
pub record Closed (close_text w : Text) (c' : Cursor) : Type 0 where
  pub body : Text
  pub tail : Text
  pub splits : w ≡ body ++ tail
  pub closes : Closes close_text tail c'

pub lazy-Closed :
    (r : Regex) (t : Text) (c : Cursor) (w : Text) (c' : Cursor)
    → Matches (sequence (lazy r ∷ until t ∷ [])) c w c'
    → Closed t w c'
lazy-Closed r t c w c' (u, v, d, e, _, (u', v', d', e', m, (z, same))) = record {
  body = u;
  tail = u';
  splits = e ∙ ap (◌++◌ u) (e' ∙ ap (◌++◌ u') z ∙ append-nil u');
  closes = rw same (until-Closes t d u' d' m);
}
