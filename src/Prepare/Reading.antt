-- ===== src/Prepare/Reading.antt =====
-- The lines of a file as `prepareSource` reads them, described without the code's replacements.
use omarchy_hackertyper.Base.{
  ℕ, false, List, [], ◌∷◌, ◌==◌, ==_iff, Text, Bool-cases, ◌≡◌, ◌≢◌, refl, inl, inr, arith,
}
use omarchy_hackertyper.Lines.{newline, carriage_return, byte_order_mark, cons_head, split_lines}
use omarchy_hackertyper.Lines.Laws.{split_lines-ne-nil}
use omarchy_hackertyper.Prepare.{strip_mark, normalize_after, normalize}

-- A file's text without the byte order mark that may stand in front of it.
pub data Unmarked : Text → Text → Type 0 where
  marked : {t : Text} → Unmarked (byte_order_mark ∷ t) t
  unmarked : {t : Text} → ((r : Text) → t ≢ byte_order_mark ∷ r) → Unmarked t t

-- The lines of a text. A line ends before a newline, before a carriage return, before a carriage return
-- with a newline, which are one line end, or with the text.
pub data Reads : Text → List Text → Type 0 where
  at_end : Reads [] ([] ∷ [])
  at_newline : {t : Text} {ls : List Text} → Reads t ls → Reads (newline ∷ t) ([] ∷ ls)
  at_return :
      {t : Text} {ls : List Text}
      → ((r : Text) → t ≢ newline ∷ r)
      → Reads t ls
      → Reads (carriage_return ∷ t) ([] ∷ ls)
  at_both :
      {t : Text} {ls : List Text} → Reads t ls → Reads (carriage_return ∷ newline ∷ t) ([] ∷ ls)
  in_line :
      {x : ℕ} {t l : Text} {ls : List Text}
      → x ≢ newline
      → x ≢ carriage_return
      → Reads t (l ∷ ls)
      → Reads (x ∷ t) ((x ∷ l) ∷ ls)

head_lem : {x y : ℕ} {s t : Text} → ◌≡◌ {A = Text} (x ∷ s) (y ∷ t) → x ≡ y
head_lem e = cc

pub strip_mark-Unmarked : (raw : Text) → Unmarked raw (strip_mark raw)
unfolding strip_mark
strip_mark-Unmarked [] = unmarked (λ r e. cc)
strip_mark-Unmarked (x ∷ xs) = elim (Bool-cases (x == byte_order_mark)) [
  | inl e ↦ rw (e, (==_iff x byte_order_mark).0 e) marked
  | inr e ↦ rw e (unmarked (λ r q. ground (arith, head_lem q)))
]

in_line_lem :
    (x : ℕ) (t : Text) (ls : List Text)
    → x ≢ newline
    → x ≢ carriage_return
    → ls ≢ []
    → Reads t ls
    → Reads (x ∷ t) (cons_head x ls)
in_line_lem x t [] n c e r = absurd (e refl)
in_line_lem x t (l ∷ ls) n c e r = in_line n c r

split-newline : (t : Text) → split_lines (newline ∷ t) ≡ [] ∷ split_lines t
unfolding split_lines
split-newline t = refl

split-unit :
    (x : ℕ) (t : Text) → (x == newline) ≡ false → split_lines (x ∷ t) ≡ cons_head x (split_lines t)
unfolding split_lines
split-unit x t h = rw h refl

normalize-unit :
    (x : ℕ) (t : Text) → (x == carriage_return) ≡ false → normalize (x ∷ t) ≡ x ∷ normalize t
unfolding normalize_after
normalize-unit x t h = rw h refl

normalize-both : (t : Text) → normalize (carriage_return ∷ newline ∷ t) ≡ newline ∷ normalize t
unfolding normalize_after
normalize-both t = refl

normalize-return :
    (x : ℕ) (t : Text)
    → (x == newline) ≡ false
    → normalize (carriage_return ∷ x ∷ t) ≡ newline ∷ normalize (x ∷ t)
unfolding normalize_after
normalize-return x t h = rw h refl

unequal : {x y : ℕ} → (x == y) ≡ false → x ≢ y
unequal h e = ground arith

abbrev lines_of : Text → List Text
lines_of s = split_lines (normalize s)

other-Reads :
    (x : ℕ) (t : Text)
    → (x == carriage_return) ≡ false
    → Reads t (lines_of t)
    → Reads (x ∷ t) (lines_of (x ∷ t))
other-Reads x t e r = elim (Bool-cases (x == newline)) [
  | inl n ↦
      rw (normalize-unit x t e, (==_iff x newline).0 n, split-newline (normalize t)) (at_newline r)
  | inr n ↦
      rw (normalize-unit x t e, split-unit x (normalize t) n)
        (in_line_lem x t (lines_of t) (unequal n) (unequal e) (split_lines-ne-nil (normalize t)) r)
]

return-Reads :
    (y : ℕ) (t : Text)
    → Reads t (lines_of t)
    → Reads (y ∷ t) (lines_of (y ∷ t))
    → Reads (carriage_return ∷ y ∷ t) (lines_of (carriage_return ∷ y ∷ t))
return-Reads y t r q = elim (Bool-cases (y == newline)) [
  | inl n ↦ rw ((==_iff y newline).0 n, normalize-both t, split-newline (normalize t)) (at_both r)
  | inr n ↦
      rw (normalize-return y t n, split-newline (normalize (y ∷ t)))
        (at_return (λ r q. unequal n (head_lem q)) q)
]

empty-Reads : Reads [] (lines_of [])
unfolding split_lines normalize_after
empty-Reads = at_end

return_last-Reads : Reads (carriage_return ∷ []) (lines_of (carriage_return ∷ []))
unfolding split_lines normalize_after
return_last-Reads = at_return (λ r e. cc) at_end

pub split-Reads : (s : Text) → Reads s (split_lines (normalize s))
split-Reads [] = empty-Reads
split-Reads (x ∷ []) = elim (Bool-cases (x == carriage_return)) [
  | inl e ↦ rw ((==_iff x carriage_return).0 e) return_last-Reads
  | inr e ↦ other-Reads x [] e empty-Reads
]
split-Reads (x ∷ y ∷ t) =
    let behind = split-Reads (y ∷ t) in
    elim (Bool-cases (x == carriage_return)) [
      | inl e ↦ rw ((==_iff x carriage_return).0 e) (return-Reads y t (split-Reads t) behind)
      | inr e ↦ other-Reads x (y ∷ t) e behind
    ]
