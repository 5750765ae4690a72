-- ===== src/Highlight/Lexer/Cuts.antt =====
-- Cutting a text leaves the text.
use omarchy_hackertyper.Base.{
  ℕ, [], ◌∷◌, ◌++◌, Option, none, some, ◌==◌, ==_iff, Bool-cases, Text, starts_with,
  starts_with-drop, ◌≡◌, refl, ap, inl, inr,
}
use omarchy_hackertyper.Highlight.Lexer.{until_text, with_firsts, until_quote}
use omarchy_hackertyper.Highlight.Regex.{is_line_end}

pub until_text-append : (l t : Text) → (until_text l t).0 ++ (until_text l t).1 ≡ t
until_text-append l [] = refl
until_text-append l (x ∷ xs) = elim (Bool-cases (starts_with l (x ∷ xs))) [
  | inl e ↦ rw e (starts_with-drop l (x ∷ xs) e)
  | inr e ↦ rw e (ap (◌∷◌ x) (until_text-append l xs))
]

-- What is cut off, if anything is, and the rest are the text.
abbrev pub IsCut : Text → Option (Text × Text) → Type 0
IsCut t none = Unit
IsCut t (some cut) = cut.0 ++ cut.1 ≡ t

with_firsts-IsCut :
    (x : ℕ) (t : Text) (o : Option (Text × Text)) → IsCut t o → IsCut (x ∷ t) (with_firsts x o)
with_firsts-IsCut x t none h = tt
with_firsts-IsCut x t (some cut) h = ap (◌∷◌ x) h

pub until_quote-IsCut : (q : ℕ) (t : Text) → IsCut t (until_quote q t)
until_quote-IsCut q [] = refl
until_quote-IsCut q (x ∷ []) = elim (Bool-cases (q == x)) [
  | inl e ↦ rw e (ap (λ c. c ∷ []) ((==_iff q x).0 e))
  | inr e ↦ elim (Bool-cases (x == b'\\')) [ inl f ↦ rw (e, f) tt | inr f ↦ rw (e, f) refl ]
]
until_quote-IsCut q (x ∷ y ∷ ys) = elim (Bool-cases (q == x)) [
  | inl e ↦ rw e (ap (λ c. c ∷ y ∷ ys) ((==_iff q x).0 e))
  | inr e ↦ elim (Bool-cases (x == b'\\')) [
    | inr f ↦
        rw (e, f)
          (with_firsts-IsCut x (y ∷ ys) (until_quote q (y ∷ ys)) (until_quote-IsCut q (y ∷ ys)))
    | inl f ↦ elim (Bool-cases (is_line_end y)) [
      | inl g ↦ rw (e, f, g) tt
      | inr g ↦
          rw (e, f, g)
            (with_firsts-IsCut x (y ∷ ys) (with_firsts y (until_quote q ys))
              (with_firsts-IsCut y ys (until_quote q ys) (until_quote-IsCut q ys)))
    ]
  ]
]
