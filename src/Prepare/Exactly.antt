-- ===== src/Prepare/Exactly.antt =====
-- What `prepareSource` makes of the lines of a file, described without the code's tests.
use omarchy_hackertyper.Base.{
  ℕ, Bool, true, false, List, [], ◌∷◌, ◌++◌, some, Option-cases, Text, Bool-cases, codes, all, keep,
  drop, drop_while, take_while, starts_with, starts_with-drop, take_while-append-drop_while, ◌≡◌,
  ◌≢◌, refl, sym, ap, ◌∙◌, inl, inr, arith,
}
use omarchy_hackertyper.Lines.{is_space, is_empty, join_lines, trim}
use omarchy_hackertyper.Prepare.Hidden.{
  Marker, slashes, hash, dashes, marker, IsHidden, license, note, not_visible,
}
use omarchy_hackertyper.Prepare.Lines.{
  is_visible, raw_lines, prepared_lines, prepare_source-prepared_lines,
}
use omarchy_hackertyper.Prepare.{
  after_marker, is_license, is_note, is_blank, strip_mark, prepare_source,
}
use omarchy_hackertyper.Prepare.Reading.{Unmarked, Reads, strip_mark-Unmarked, split-Reads}

-- The lines behind the first one of the code: hidden ones are left out, all others stand as they are.
pub data Body : List Text → List Text → Type 0 where
  ends : Body [] []
  leaves_out : {l : Text} {ls ks : List Text} → IsHidden l → Body ls ks → Body (l ∷ ls) ks
  keeps : {l : Text} {ls ks : List Text} → ¬ IsHidden l → Body ls ks → Body (l ∷ ls) (l ∷ ks)

-- All lines: in front, lines that are blank are left out as well.
pub data Prepared : List Text → List Text → Type 0 where
  nothing : Prepared [] []
  hides : {l : Text} {ls ks : List Text} → IsHidden l → Prepared ls ks → Prepared (l ∷ ls) ks
  blank : {l : Text} {ls ks : List Text} → trim l ≡ [] → Prepared ls ks → Prepared (l ∷ ls) ks
  begins :
      {l : Text} {ls ks : List Text}
      → ¬ IsHidden l
      → trim l ≢ []
      → Body ls ks
      → Prepared (l ∷ ls) (l ∷ ks)

-- The tests of the code find nothing else than what is described.
after_marker-inverts :
    (t rest : Text) → after_marker t ≡ some rest → (m : Marker) × (t ≡ marker m ++ rest)
unfolding after_marker
after_marker-inverts t rest h = elim (Bool-cases (starts_with (codes "//") t)) [
  | inl a ↦
      let e : drop 2 t ≡ rest = ground arith in
      (slashes, sym (starts_with-drop (codes "//") t a) ∙ ap (◌++◌ (codes "//")) e)
  | inr a ↦ elim (Bool-cases (starts_with (codes "#") t)) [
    | inl b ↦
        let e : drop 1 t ≡ rest = ground arith in
        (hash, sym (starts_with-drop (codes "#") t b) ∙ ap (◌++◌ (codes "#")) e)
    | inr b ↦ elim (Bool-cases (starts_with (codes "--") t)) [
      | inl c ↦
          let e : drop 2 t ≡ rest = ground arith in
          (dashes, sym (starts_with-drop (codes "--") t c) ∙ ap (◌++◌ (codes "--")) e)
      | inr c ↦ absurd (ground arith)
    ]
  ]
]

all-take_while : (p : ℕ → Bool) (t : Text) → all p (take_while p t) ≡ true
all-take_while p [] = refl
all-take_while p (x ∷ xs) = ground (arith, all-take_while p xs)

note-IsHidden : (l : Text) → is_note (trim l) ≡ true → IsHidden l
unfolding is_note
note-IsHidden l h = elim (Option-cases (after_marker (trim l))) [
  | inl e ↦ absurd (ground arith)
  | inr (rest, e) ↦
      let (m, s) = after_marker-inverts (trim l) rest e in
      let begins_so : starts_with (codes " ::") rest ≡ true = rw (e, is_note) at h in
      note m (drop 3 rest)
        (s ∙ ap (◌++◌ (marker m)) (sym (starts_with-drop (codes " ::") rest begins_so)))
]

license-IsHidden : (l : Text) → is_license (trim l) ≡ true → IsHidden l
unfolding is_license
license-IsHidden l h = elim (Option-cases (after_marker (trim l))) [
  | inl e ↦ absurd (ground arith)
  | inr (rest, e) ↦
      let (m, s) = after_marker-inverts (trim l) rest e in
      let name = codes "SPDX-License-Identifier:" in
      let behind = drop_while is_space rest in
      let begins_so : starts_with name behind ≡ true = rw (e, is_license) at h in
      license m (take_while is_space rest) (drop 24 behind) (all-take_while is_space rest) (
        s
        ∙ ap (◌++◌ (marker m)) (
            sym (take_while-append-drop_while is_space rest)
            ∙ ap (◌++◌ (take_while is_space rest)) (sym (starts_with-drop name behind begins_so))))
]

hidden_lem : (l : Text) → is_visible l ≡ false → IsHidden l
unfolding is_visible
hidden_lem l h = elim (Bool-cases (is_license (trim l))) [
  | inl a ↦ license-IsHidden l a
  | inr a ↦ note-IsHidden l (ground arith)
]

trims_to_nothing : (t : Text) → is_empty t ≡ true → t ≡ []
trims_to_nothing [] h = refl
trims_to_nothing (x ∷ t) h = cc

keep-Body : (ls : List Text) → Body ls (keep is_visible ls)
keep-Body [] = ends
keep-Body (l ∷ ls) = elim (Bool-cases (is_visible l)) [
  | inl v ↦ rw v (keeps (not_visible l v) (keep-Body ls))
  | inr v ↦ rw v (leaves_out (hidden_lem l v) (keep-Body ls))
]

keep-Prepared : (ls : List Text) → Prepared ls (drop_while is_blank (keep is_visible ls))
keep-Prepared [] = nothing
keep-Prepared (l ∷ ls) = elim (Bool-cases (is_visible l)) [
  | inr v ↦ rw v (hides (hidden_lem l v) (keep-Prepared ls))
  | inl v ↦ elim (Bool-cases (is_blank l)) [
    | inl b ↦ rw (v, b) (blank (trims_to_nothing (trim l) b) (keep-Prepared ls))
    | inr b ↦
        rw (v, b) (begins (not_visible l v) (λ e. ground (arith, ap is_empty e)) (keep-Body ls))
  ]
]

-- For every file, the prepared text is the lines that are left, unchanged, in their order and joined by
-- newlines, when a byte order mark in front of the file is taken away, the rest is read as lines that end
-- with a newline, a carriage return or both, and of them exactly the license lines, the `::` notes and
-- the blank lines in front of all others are left out.
pub prepare_source-Prepared :
    (raw : Text)
    → (text : Text) × (file_lines : List Text) × (lines : List Text) × Unmarked raw text
      × Reads text file_lines
      × Prepared file_lines lines
      × (prepare_source raw ≡ join_lines lines)
prepare_source-Prepared raw = (
  strip_mark raw,
  raw_lines raw,
  prepared_lines raw,
  strip_mark-Unmarked raw,
  split-Reads (strip_mark raw),
  keep-Prepared (raw_lines raw),
  prepare_source-prepared_lines raw,
)
