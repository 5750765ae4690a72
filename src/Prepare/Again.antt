-- ===== src/Prepare/Again.antt =====
-- Preparing a text that is prepared already.
use omarchy_hackertyper.Base.{
  ℕ, Bool, true, false, List, [], ◌∷◌, ◌==◌, Text, Bool-cases, all, keep, keep_of_all, drop_while,
  keep-all, ◌≡◌, refl, sym, ap, ◌∙◌, arith, inl, inr, ==_iff,
}
use omarchy_hackertyper.Lines.{byte_order_mark, not_newline, join_lines, trim}
use omarchy_hackertyper.Lines.Laws.{are_lines, split-join, trim-cons_mark}
use omarchy_hackertyper.Prepare.Endings.{is_unix, prepare_source-is_unix, normalize_unix}
use omarchy_hackertyper.Prepare.Lines.{
  is_visible, raw_lines, prepare_source-prepared_lines, prepared_lines-are_lines,
}
use omarchy_hackertyper.Prepare.{strip_mark, is_blank, prepare_source}

-- A mark in front of a line is white space: it changes neither the trimmed line nor what hangs on it.
trim-strip_mark : (l : Text) → trim (strip_mark l) ≡ trim l
unfolding strip_mark
trim-strip_mark [] = refl
trim-strip_mark (x ∷ xs) = elim (Bool-cases (x == byte_order_mark)) [
  | inl e ↦ rw (e, (==_iff x byte_order_mark).0 e) (sym (trim-cons_mark xs))
  | inr e ↦ rw e
]

strip_mark-is_visible : (l : Text) → is_visible (strip_mark l) ≡ is_visible l
unfolding is_visible
strip_mark-is_visible l = rw (trim-strip_mark l)

strip_mark-is_blank : (l : Text) → is_blank (strip_mark l) ≡ is_blank l
strip_mark-is_blank l = rw (trim-strip_mark l)

strip_mark-all : (p : ℕ → Bool) (s : Text) → all p s ≡ true → all p (strip_mark s) ≡ true
unfolding strip_mark
strip_mark-all p [] h = refl
strip_mark-all p (x ∷ xs) h = ground arith

strip_mark-join :
    (l : Text) (ls : List Text)
    → is_blank l ≡ false
    → strip_mark (join_lines (l ∷ ls)) ≡ join_lines (strip_mark l ∷ ls)
unfolding strip_mark join_lines trim
strip_mark-join [] ls h = cc
strip_mark-join (x ∷ xs) [] h = refl
strip_mark-join (x ∷ xs) (m ∷ ls) h = ground arith

-- What is known of the kept lines suffices to find them again.
module _ (l : Text) (ls : List Text) (shown : all is_visible (l ∷ ls) ≡ true)
    (first : is_blank l ≡ false) (lines : are_lines (l ∷ ls) ≡ true) where
  abbrev again : List Text
  again = strip_mark l ∷ ls

  again-raw_lines : (s : Text) → s ≡ join_lines (l ∷ ls) → is_unix s ≡ true → raw_lines s ≡ again
  again-raw_lines s e u =
      rw (normalize_unix (strip_mark s) (strip_mark-all _ s u), e, strip_mark-join l ls first)
        (split-join again (λ x. cc) (ground (arith, strip_mark-all not_newline l)))

  again-prepared_lines : drop_while is_blank (keep is_visible again) ≡ again
  again-prepared_lines =
      rw (keep_of_all is_visible again (ground (arith, strip_mark-is_visible l)))
        (ground (arith, strip_mark-is_blank l))

  again-prepare_source :
      (s : Text) → s ≡ join_lines (l ∷ ls) → is_unix s ≡ true → prepare_source s ≡ strip_mark s
  again-prepare_source s e u =
      prepare_source-prepared_lines s
      ∙ ap (λ ms. join_lines (drop_while is_blank (keep is_visible ms))) (again-raw_lines s e u)
      ∙ ap join_lines again-prepared_lines
      ∙ sym (strip_mark-join l ls first)
      ∙ ap strip_mark (sym e)

empty_join : join_lines [] ≡ []
unfolding join_lines
empty_join = refl

prepare_empty : prepare_source [] ≡ []
unfolding prepare_source
prepare_empty = refl

-- Preparing a prepared text changes it only by a byte order mark in front, if one is left there.
pub prepare_source-prepare_source :
    (raw : Text) → prepare_source (prepare_source raw) ≡ strip_mark (prepare_source raw)
prepare_source-prepare_source raw =
    go (keep is_visible (raw_lines raw)) (keep-all is_visible (raw_lines raw))
      (prepare_source-prepared_lines raw) (prepared_lines-are_lines raw)
  where
    go :
        (ms : List Text)
        → all is_visible ms ≡ true
        → prepare_source raw ≡ join_lines (drop_while is_blank ms)
        → are_lines (drop_while is_blank ms) ≡ true
        → prepare_source (prepare_source raw) ≡ strip_mark (prepare_source raw)
    go [] v e a = rw (e, empty_join, prepare_empty) (unfold strip_mark in refl)
    go (l ∷ ms) v e a = elim (Bool-cases (is_blank l)) [
      | inl b ↦ go ms (ground arith) (ground arith) (ground arith)
      | inr b ↦
          again-prepare_source l ms v b (ground arith) (prepare_source raw) (ground arith)
            (prepare_source-is_unix raw)
    ]
