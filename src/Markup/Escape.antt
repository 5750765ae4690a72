-- ===== src/Markup/Escape.antt =====
-- Escaped text shows the text: nothing is added, and nothing is taken away.
use omarchy_hackertyper.Base.{
  ℕ, true, [], ◌∷◌, ◌++◌, ◌==◌, if◌then◌else◌, Bool-cases, Text, codes, append_assoc, ◌≡◌, refl,
  sym, ap, ◌∙◌, arith, inl, inr,
}
use omarchy_hackertyper.Lines.{is_empty}
use omarchy_hackertyper.Markup.Reader.{shown_from, shown}
use omarchy_hackertyper.Markup.{no_break_space, tab_spaces, replace_all, escape_markup}

replace_all-append :
    (c : ℕ) (by xs ys : Text)
    → replace_all c by (xs ++ ys) ≡ replace_all c by xs ++ replace_all c by ys
unfolding replace_all
replace_all-append c by [] ys = refl
replace_all-append c by (x ∷ xs) ys = elim (Bool-cases (x == c)) [
  | inl e ↦
      rw (e, replace_all-append c by xs ys)
        (sym (append_assoc by (replace_all c by xs) (replace_all c by ys)))
  | inr e ↦ rw (e, replace_all-append c by xs ys) refl
]

pub escape_markup-append :
    (xs ys : Text) → escape_markup (xs ++ ys) ≡ escape_markup xs ++ escape_markup ys
unfolding escape_markup
escape_markup-append xs ys = simp replace_all-append

-- One code unit as markup.
abbrev pub markup_unit : ℕ → Text
markup_unit c =
    if c == b'&'
    then codes "&amp;"
    else if c == b'<'
    then codes "&lt;"
    else if c == b'>'
    then codes "&gt;"
    else if c == b'\n'
    then codes "<br>"
    else if c == b'\t'
    then tab_spaces
    else if c == b' '
    then no_break_space ∷ []
    else c ∷ []

pub escape_markup-markup_unit : (c : ℕ) → escape_markup (c ∷ []) ≡ markup_unit c
unfolding escape_markup
escape_markup-markup_unit c = ground arith

-- What is seen of a text: a tab as four hard spaces, a space as one.
abbrev pub display_unit : ℕ → Text
display_unit c =
    if c == b'\t' then tab_spaces else if c == b' ' then no_break_space ∷ [] else c ∷ []

unfoldable pub display : Text → Text
display [] = []
display (c ∷ cs) = display_unit c ++ display cs

shown-markup_unit :
    (c : ℕ) (rest : Text) → shown (markup_unit c ++ rest) ≡ display_unit c ++ shown rest
unfolding shown_from
shown-markup_unit c rest = ground arith

-- Escaped text shows the text, in front of any markup.
pub shown-escape_markup :
    (text rest : Text) → shown (escape_markup text ++ rest) ≡ display text ++ shown rest
unfolding display
shown-escape_markup [] rest = unfold escape_markup in refl
shown-escape_markup (c ∷ cs) rest =
    ap (λ u. shown (u ++ rest))
      (escape_markup-append (c ∷ []) cs
        ∙ ap (λ u. u ++ escape_markup cs) (escape_markup-markup_unit c))
    ∙ ap shown (append_assoc (markup_unit c) (escape_markup cs) rest)
    ∙ shown-markup_unit c (escape_markup cs ++ rest)
    ∙ ap (◌++◌ (display_unit c)) (shown-escape_markup cs rest)
    ∙ sym (append_assoc (display_unit c) (display cs) (shown rest))

pub display-append : (s t : Text) → display (s ++ t) ≡ display s ++ display t
unfolding display
display-append [] t = refl
display-append (c ∷ s) t =
    ap (◌++◌ (display_unit c)) (display-append s t)
    ∙ sym (append_assoc (display_unit c) (display s) (display t))

-- Where escaping leaves nothing there was nothing.
pub empty-escape_markup : (text : Text) → is_empty (escape_markup text) ≡ true → text ≡ []
empty-escape_markup [] h = refl
empty-escape_markup (c ∷ cs) h =
    absurd (go c (rw (escape_markup-append (c ∷ []) cs, escape_markup-markup_unit c) at h))
  where
    go : (x : ℕ) → is_empty (markup_unit x ++ escape_markup cs) ≡ true → ⊥
    go x e = ground arith
