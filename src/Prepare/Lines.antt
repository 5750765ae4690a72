-- ===== src/Prepare/Lines.antt =====
-- Which lines `prepareSource` keeps.
use omarchy_hackertyper.Base.{
  Bool, true, false, not, ◌&&◌, List, [], ◌∷◌, ◌++◌, Bool-cases, Text, all, keep, drop_while,
  keep-all, drop_while-all, ◌≡◌, ◌⊎◌, refl, sym, ap, ◌∙◌, arith, inl, inr, append-nil, append_assoc,
}
use omarchy_hackertyper.Lines.{split_lines, join_lines, trim}
use omarchy_hackertyper.Lines.Laws.{are_lines, split-are_lines, split-join}
use omarchy_hackertyper.Prepare.{
  strip_mark, normalize, is_license, is_note, is_blank, collect, shift_blank, prepare_source,
}

-- A line that is typed: no license line and no `::` note.
unfoldable pub is_visible : Text → Bool
is_visible line = not (is_license (trim line)) && not (is_note (trim line))

pub collect-keep :
    (prepared lines : List Text) → collect prepared lines ≡ prepared ++ keep is_visible lines
unfolding is_visible collect
collect-keep prepared [] = unfold collect in sym (append-nil prepared)
collect-keep prepared (l ∷ ls) = elim (Bool-cases (is_license (trim l))) [
  | inl a ↦ rw (collect, a) (collect-keep prepared ls)
  | inr a ↦ elim (Bool-cases (is_note (trim l))) [
    | inl b ↦ rw (collect, a, b) (collect-keep prepared ls)
    | inr b ↦
        rw (collect, a, b)
          (collect-keep (prepared ++ l ∷ []) ls
            ∙ append_assoc prepared (l ∷ []) (keep is_visible ls))
  ]
]

pub shift_blank-drop_while : (lines : List Text) → shift_blank lines ≡ drop_while is_blank lines
unfolding shift_blank
shift_blank-drop_while [] = refl
shift_blank-drop_while (l ∷ ls) = ground (arith, shift_blank-drop_while ls)

-- The lines of the raw text.
abbrev pub raw_lines : Text → List Text
raw_lines raw = split_lines (normalize (strip_mark raw))

-- The lines of the prepared text; none where nothing is left.
abbrev pub prepared_lines : Text → List Text
prepared_lines raw = drop_while is_blank (keep is_visible (raw_lines raw))

-- `prepareSource` drops the license lines and the notes, then the blank lines in front, and joins
-- the rest.
pub prepare_source-prepared_lines :
    (raw : Text) → prepare_source raw ≡ join_lines (prepared_lines raw)
unfolding prepare_source
prepare_source-prepared_lines raw = ap join_lines (
    shift_blank-drop_while (collect [] (raw_lines raw))
    ∙ ap (drop_while is_blank) (collect-keep [] (raw_lines raw)))

keep-are_lines :
    (p : Text → Bool) (ls : List Text) → are_lines ls ≡ true → are_lines (keep p ls) ≡ true
keep-are_lines p [] h = refl
keep-are_lines p (l ∷ ls) h = ground (arith, keep-are_lines p ls)

pub prepared_lines-are_lines : (raw : Text) → are_lines (prepared_lines raw) ≡ true
prepared_lines-are_lines raw =
    drop_while-all _ is_blank (keep is_visible (raw_lines raw))
      (keep-are_lines is_visible (raw_lines raw) (split-are_lines (normalize (strip_mark raw))))

-- The lines read back from the prepared text are the kept ones, or one empty line where none is left.
pub split-prepare_source :
    (raw : Text)
    → ((prepared_lines raw ≡ []) × (split_lines (prepare_source raw) ≡ [] ∷ []))
      ⊎ (split_lines (prepare_source raw) ≡ prepared_lines raw)
split-prepare_source raw = go (prepared_lines raw) refl (prepared_lines-are_lines raw)
  where
    go :
        (ls : List Text)
        → prepared_lines raw ≡ ls
        → are_lines ls ≡ true
        → ((ls ≡ []) × (split_lines (prepare_source raw) ≡ [] ∷ []))
          ⊎ (split_lines (prepare_source raw) ≡ ls)
    go [] e a =
        inl
          (refl, rw (prepare_source-prepared_lines raw, e) (unfold split_lines join_lines in refl))
    go (l ∷ ls) e a =
        inr (rw (prepare_source-prepared_lines raw, e) (split-join (l ∷ ls) (λ x. cc) a))

empty-is_visible : is_visible [] ≡ true
unfolding is_visible is_license is_note trim
empty-is_visible = refl

-- No line of the prepared text is a license line or a note.
pub prepare_source-is_visible :
    (raw : Text) → all is_visible (split_lines (prepare_source raw)) ≡ true
prepare_source-is_visible raw = elim (split-prepare_source raw) [
  | inl (_, e) ↦ rw (e, empty-is_visible)
  | inr e ↦ rw e (drop_while-all _ is_blank _ (keep-all is_visible (raw_lines raw)))
]

head_not_blank :
    (ls : List Text)
    → (drop_while is_blank ls ≡ [])
      ⊎ ((l : Text) × (rest : List Text) × (drop_while is_blank ls ≡ l ∷ rest)
          × (is_blank l ≡ false))
head_not_blank [] = inl refl
head_not_blank (l ∷ ls) = elim (Bool-cases (is_blank l)) [
  | inl b ↦ rw b (head_not_blank ls)
  | inr b ↦ inr (l, ls, rw b, b)
]

-- The prepared text is empty, or its first line is not blank.
pub prepare_source_head :
    (raw : Text)
    → (prepare_source raw ≡ [])
      ⊎ ((l : Text) × (rest : List Text) × (split_lines (prepare_source raw) ≡ l ∷ rest)
          × (is_blank l ≡ false))
prepare_source_head raw = elim (head_not_blank (keep is_visible (raw_lines raw))) [
  | inl e ↦ inl (rw (prepare_source-prepared_lines raw, e) (unfold join_lines in refl))
  | inr (l, rest, e, b) ↦ elim (split-prepare_source raw) [
    | inl (z, _) ↦ cc
    | inr s ↦ inr (l, rest, s ∙ e, b)
  ]
]
