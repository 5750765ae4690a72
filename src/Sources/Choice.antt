-- ===== src/Sources/Choice.antt =====
-- Which source `sourceById` picks.
use omarchy_hackertyper.Base.{
  ℕ, zero, suc, Bool, true, not, ◌&&◌, List, [], ◌∷◌, ◌++◌, map, Option, none, some, Bool-cases,
  Option-cases, Text, text_eq, text_eq_iff, text_eq_refl, contains, all, ◌≡◌, refl, ap, arith, inl,
  inr,
}
use omarchy_hackertyper.Sources.{Source, find_source, first_source, source_by_id}

abbrev pub other_than : Text → Source → Bool
other_than requested s = not (text_eq s.id requested)

-- What a lookup may return: the first entry with the requested id; else the first entry of all; and
-- nothing from an empty list.
pub data Picks (list : List Source) (requested : Text) (result : Option Source) : Type 0 where
  found :
      (before : List Source) (s : Source) (after : List Source)
      → list ≡ before ++ s ∷ after
      → all (other_than requested) before ≡ true
      → s.id ≡ requested
      → result ≡ some s
      → Picks list requested result
  fallback :
      (s : Source) (rest : List Source)
      → list ≡ s ∷ rest
      → all (other_than requested) list ≡ true
      → result ≡ some s
      → Picks list requested result
  empty : list ≡ [] → result ≡ none → Picks list requested result

-- What the loop has found.
record Found (list : List Source) (requested : Text) (s : Source) : Type 0 where
  before : List Source
  after : List Source
  splits : list ≡ before ++ s ∷ after
  first : all (other_than requested) before ≡ true
  matches : s.id ≡ requested

find_source-Found :
    (list : List Source) (requested : Text) (s : Source)
    → find_source list requested ≡ some s
    → Found list requested s
unfolding find_source
find_source-Found [] requested s h = cc
find_source-Found (x ∷ rest) requested s h = elim (Bool-cases (text_eq x.id requested)) [
  | inl e ↦ record {
    before = [];
    after = rest;
    splits = ground arith;
    first = refl;
    matches = ground (arith, text_eq_iff x.id requested);
  }
  | inr e ↦
      let f = find_source-Found rest requested s (ground arith) in
      record {
        before = x ∷ f.before;
        after = f.after;
        splits = ap (◌∷◌ x) f.splits;
        first = ground (arith, f.first);
        matches = f.matches;
      }
]

find_source-none :
    (list : List Source) (requested : Text)
    → find_source list requested ≡ none
    → all (other_than requested) list ≡ true
unfolding find_source
find_source-none [] requested h = refl
find_source-none (x ∷ rest) requested h = ground (arith, find_source-none rest requested)

-- `sourceById` returns the first source with the requested id; where there is none, the first source
-- of the list; and `null` only for an empty list.
pub source_by_id-Picks :
    (list : List Source) (requested : Text) → Picks list requested (source_by_id list requested)
unfolding source_by_id
source_by_id-Picks list requested = elim (Option-cases (find_source list requested)) [
  | inl e ↦ rw (e, source_by_id) (go list (find_source-none list requested e))
  | inr (s, e) ↦
      let f = find_source-Found list requested s e in
      rw (e, source_by_id) (found f.before s f.after f.splits f.first f.matches refl)
]
  where
    go :
        (l : List Source) → all (other_than requested) l ≡ true → Picks l requested (first_source l)
    go [] a = empty refl refl
    go (s ∷ rest) a = fallback s rest refl a refl

-- The ids are pairwise different.
abbrev pub distinct : List Text → Bool
distinct [] = true
distinct (x ∷ xs) = not (contains xs x) && distinct xs

abbrev pub source_at : List Source → ℕ → Option Source
source_at [] i = none
source_at (s ∷ rest) zero = some s
source_at (s ∷ rest) (suc i) = source_at rest i

abbrev pub ids : List Source → List Text
ids = map (λ s. s.id)

contains-ids :
    (list : List Source) (i : ℕ) (s : Source)
    → source_at list i ≡ some s
    → contains (ids list) s.id ≡ true
contains-ids [] i s h = cc
contains-ids (x ∷ rest) zero s h = ground (arith, text_eq_refl s.id)
contains-ids (x ∷ rest) (suc i) s h = ground (arith, contains-ids rest i s)

pub find_source-source_at :
    (list : List Source) (i : ℕ) (s : Source)
    → distinct (ids list) ≡ true
    → source_at list i ≡ some s
    → find_source list s.id ≡ some s
unfolding find_source
find_source-source_at [] i s d h = cc
find_source-source_at (x ∷ rest) zero s d h = ground (arith, text_eq_refl s.id)
find_source-source_at (x ∷ rest) (suc i) s d h = ground (
  arith,
  find_source-source_at rest i s,
  contains-ids rest i s,
  text_eq_iff x.id s.id,
  text_eq_refl s.id,
)

-- In a list with distinct ids every entry is found by its id.
pub source_by_id-source_at :
    (list : List Source) (i : ℕ) (s : Source)
    → distinct (ids list) ≡ true
    → source_at list i ≡ some s
    → source_by_id list s.id ≡ some s
unfolding source_by_id
source_by_id-source_at list i s d h = rw (find_source-source_at list i s d h, source_by_id)

-- What holds of all entries holds of the one that is picked.
pub source_by_id-all :
    (p : Source → Bool) (list : List Source) (requested : Text) (s : Source)
    → all p list ≡ true
    → source_by_id list requested ≡ some s
    → p s ≡ true
source_by_id-all p list requested s a h =
    go list (source_by_id list requested) a h (source_by_id-Picks list requested)
  where
    pick :
        (before after : List Source) (t : Source) → all p (before ++ t ∷ after) ≡ true → p t ≡ true
    pick [] after t b = ground arith
    pick (x ∷ before) after t b = pick before after t (ground arith)

    go :
        (l : List Source) (result : Option Source)
        → all p l ≡ true
        → result ≡ some s
        → Picks l requested result
        → p s ≡ true
    go l result b e (found before t after splits _ _ same) =
        let one : t ≡ s = cc in rw (← one) (pick before after t (rw splits at b))
    go l result b e (fallback t rest splits _ same) =
        let one : t ≡ s = cc in rw (← one) (pick [] rest t (rw splits at b))
    go l result b e (empty _ same) = cc

pub source_at-all :
    (p : Source → Bool) (list : List Source) (i : ℕ) (s : Source)
    → all p list ≡ true
    → source_at list i ≡ some s
    → p s ≡ true
source_at-all p [] i s a h = cc
source_at-all p (x ∷ rest) zero s a h = ground arith
source_at-all p (x ∷ rest) (suc i) s a h = source_at-all p rest i s (ground arith) h
