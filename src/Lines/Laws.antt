-- ===== src/Lines/Laws.antt =====
-- How splitting and joining undo one another, and what trimming keeps.
use omarchy_hackertyper.Base.{
  ℕ, Bool, true, List, [], ◌∷◌, ◌++◌, Text, all, ◌≡◌, ◌≢◌, refl, arith, all-append,
}
use omarchy_hackertyper.Lines.{
  newline, not_newline, cons_head, split_lines, join_lines, is_space, byte_order_mark, trim,
}

-- A list of lines, none of which holds a newline.
abbrev pub are_lines : List Text → Bool
are_lines = all (all not_newline)

pub split_lines-ne-nil : (s : Text) → split_lines s ≢ []
unfolding split_lines
split_lines-ne-nil [] e = cc
split_lines-ne-nil (x ∷ xs) e = ground (arith, split_lines-ne-nil xs)

join-cons_head :
    (x : ℕ) (ls : List Text) → ls ≢ [] → join_lines (cons_head x ls) ≡ x ∷ join_lines ls
unfolding join_lines
join-cons_head x [] h = absurd (h refl)
join-cons_head x (l ∷ []) h = refl
join-cons_head x (l ∷ m ∷ ls) h = refl

join-cons_nil : (ls : List Text) → ls ≢ [] → join_lines ([] ∷ ls) ≡ newline ∷ join_lines ls
unfolding join_lines
join-cons_nil [] h = absurd (h refl)
join-cons_nil (l ∷ ls) h = refl

pub join-split : (s : Text) → join_lines (split_lines s) ≡ s
unfolding split_lines
join-split [] = unfold join_lines in refl
join-split (x ∷ xs) = ground (
  arith,
  join-split xs,
  join-cons_head x (split_lines xs) (split_lines-ne-nil xs),
  join-cons_nil (split_lines xs) (split_lines-ne-nil xs),
)

are_lines-cons_head :
    (x : ℕ) (ls : List Text)
    → not_newline x ≡ true
    → are_lines ls ≡ true
    → are_lines (cons_head x ls) ≡ true
are_lines-cons_head x [] p h = ground arith
are_lines-cons_head x (l ∷ ls) p h = ground arith

pub split-are_lines : (s : Text) → are_lines (split_lines s) ≡ true
unfolding split_lines
split-are_lines [] = refl
split-are_lines (x ∷ xs) =
    ground (arith, split-are_lines xs, are_lines-cons_head x (split_lines xs))

split-append-newline :
    (l s : Text) → all not_newline l ≡ true → split_lines (l ++ newline ∷ s) ≡ l ∷ split_lines s
unfolding split_lines
split-append-newline [] s h = refl
split-append-newline (x ∷ l) s h = ground (arith, split-append-newline l s)

split_line : (l : Text) → all not_newline l ≡ true → split_lines l ≡ l ∷ []
unfolding split_lines
split_line [] h = refl
split_line (x ∷ l) h = ground (arith, split_line l)

pub split-join : (ls : List Text) → ls ≢ [] → are_lines ls ≡ true → split_lines (join_lines ls) ≡ ls
unfolding join_lines
split-join [] h a = absurd (h refl)
split-join (l ∷ []) h a = ground (arith, split_line l)
split-join (l ∷ m ∷ ls) h a =
    ground (arith, split-append-newline l (join_lines (m ∷ ls)), split-join (m ∷ ls) (λ e. cc))

-- A predicate on code units that a newline meets holds of a joined text where it holds of the lines.
pub all-join :
    (p : ℕ → Bool) (ls : List Text)
    → p newline ≡ true
    → all (all p) ls ≡ true
    → all p (join_lines ls) ≡ true
unfolding join_lines
all-join p [] h a = refl
all-join p (l ∷ []) h a = ground arith
all-join p (l ∷ m ∷ ls) h a =
    ground (arith, all-append p l (newline ∷ join_lines (m ∷ ls)), all-join p (m ∷ ls))

all-cons_head :
    (p : ℕ → Bool) (x : ℕ) (ls : List Text)
    → p x ≡ true
    → all (all p) ls ≡ true
    → all (all p) (cons_head x ls) ≡ true
all-cons_head p x [] h a = ground arith
all-cons_head p x (l ∷ ls) h a = ground arith

pub all-split : (p : ℕ → Bool) (s : Text) → all p s ≡ true → all (all p) (split_lines s) ≡ true
unfolding split_lines
all-split p [] h = refl
all-split p (x ∷ xs) h = ground (arith, all-split p xs, all-cons_head p x (split_lines xs))

-- A byte order mark is white space.
pub trim-cons_mark : (s : Text) → trim (byte_order_mark ∷ s) ≡ trim s
unfolding trim is_space
trim-cons_mark s = refl
