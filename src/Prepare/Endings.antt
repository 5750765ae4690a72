-- ===== src/Prepare/Endings.antt =====
-- Line endings: `prepareSource` leaves no carriage return, and does not depend on the convention.
use omarchy_hackertyper.Base.{
  ℕ, Bool, true, false, not, List, [], ◌∷◌, ◌++◌, ◌==◌, if◌then◌else◌, Text, all, keep,
  drop_while-all, ◌≡◌, refl, arith,
}
use omarchy_hackertyper.Lines.{newline, carriage_return}
use omarchy_hackertyper.Lines.Laws.{all-split, all-join}
use omarchy_hackertyper.Prepare.Lines.{
  is_visible, raw_lines, prepared_lines, prepare_source-prepared_lines,
}
use omarchy_hackertyper.Prepare.{strip_mark, normalize_after, normalize, is_blank, prepare_source}

abbrev pub not_return : ℕ → Bool
not_return c = not (c == carriage_return)

-- No carriage return in it.
abbrev pub is_unix : Text → Bool
is_unix = all not_return

normalize-is_unix : (after : Bool) (s : Text) → is_unix (normalize_after after s) ≡ true
unfolding normalize_after
normalize-is_unix after [] = refl
normalize-is_unix after (x ∷ xs) = ground (arith, normalize-is_unix (x == carriage_return) xs)

keep-all-all :
    (p : ℕ → Bool) (q : Text → Bool) (ls : List Text)
    → all (all p) ls ≡ true
    → all (all p) (keep q ls) ≡ true
keep-all-all p q [] h = refl
keep-all-all p q (l ∷ ls) h = ground (arith, keep-all-all p q ls)

pub prepared_lines-is_unix : (raw : Text) → all is_unix (prepared_lines raw) ≡ true
prepared_lines-is_unix raw = drop_while-all _ is_blank (keep is_visible (raw_lines raw)) (
    keep-all-all not_return is_visible (raw_lines raw)
      (all-split not_return _ (normalize-is_unix false (strip_mark raw))))

-- The prepared text holds no carriage return.
pub prepare_source-is_unix : (raw : Text) → is_unix (prepare_source raw) ≡ true
prepare_source-is_unix raw =
    rw (prepare_source-prepared_lines raw)
      (all-join not_return (prepared_lines raw) refl (prepared_lines-is_unix raw))

pub normalize_unix : (s : Text) → is_unix s ≡ true → normalize s ≡ s
unfolding normalize_after
normalize_unix [] h = refl
normalize_unix (x ∷ xs) h = ground (arith, normalize_unix xs)

-- The conventions that editors write: "\n", "\r\n" and "\r".
pub data Ending : Type 0 where
  lf crlf cr : Ending

abbrev pub ending : Ending → Text
ending lf = newline ∷ []
ending crlf = carriage_return ∷ newline ∷ []
ending cr = carriage_return ∷ []

-- The text with its newlines written by a convention.
unfoldable pub with_endings : Ending → Text → Text
with_endings e [] = []
with_endings e (x ∷ xs) =
    let rest = with_endings e xs in if x == newline then ending e ++ rest else x ∷ rest

normalize-with_crlf :
    (after : Bool) (s : Text) → is_unix s ≡ true → normalize_after after (with_endings crlf s) ≡ s
unfolding normalize_after with_endings
normalize-with_crlf after [] h = refl
normalize-with_crlf after (x ∷ xs) h = ground (arith, normalize-with_crlf false xs)

normalize-with_cr :
    (after : Bool) (s : Text) → is_unix s ≡ true → normalize_after after (with_endings cr s) ≡ s
unfolding normalize_after with_endings
normalize-with_cr after [] h = refl
normalize-with_cr after (x ∷ xs) h =
    ground (arith, normalize-with_cr false xs, normalize-with_cr true xs)

with_lf : (s : Text) → with_endings lf s ≡ s
unfolding with_endings
with_lf [] = refl
with_lf (x ∷ xs) = ground (arith, with_lf xs)

pub normalize-with_endings :
    (e : Ending) (s : Text) → is_unix s ≡ true → normalize (with_endings e s) ≡ s
normalize-with_endings lf s h = rw with_lf (normalize_unix s h)
normalize-with_endings crlf s h = normalize-with_crlf false s h
normalize-with_endings cr s h = normalize-with_cr false s h

strip_mark-with_endings :
    (e : Ending) (s : Text) → strip_mark (with_endings e s) ≡ with_endings e (strip_mark s)
unfolding strip_mark with_endings
strip_mark-with_endings e [] = refl
strip_mark-with_endings lf (x ∷ xs) = ground arith
strip_mark-with_endings crlf (x ∷ xs) = ground arith
strip_mark-with_endings cr (x ∷ xs) = ground arith

strip_mark-is_unix : (s : Text) → is_unix s ≡ true → is_unix (strip_mark s) ≡ true
unfolding strip_mark
strip_mark-is_unix [] h = refl
strip_mark-is_unix (x ∷ xs) h = ground arith

-- A text without carriage returns is prepared to the same text, whichever of the three conventions
-- its newlines are written by.
pub prepare_source-with_endings :
    (e : Ending) (raw : Text)
    → is_unix raw ≡ true
    → prepare_source (with_endings e raw) ≡ prepare_source raw
unfolding prepare_source
prepare_source-with_endings e raw h = rw (
  strip_mark-with_endings e raw,
  normalize-with_endings e (strip_mark raw) (strip_mark-is_unix raw h),
  normalize_unix (strip_mark raw) (strip_mark-is_unix raw h),
)
