-- ===== src/Highlight/Pattern/Literal.antt =====
-- Reading a text that `escapeRegExp` has escaped: it stands for its own code units.
use omarchy_hackertyper.Base.{
  ℕ, true, false, List, [], ◌∷◌, ◌++◌, reverse, reverse-cons-append, some, Text, Bool-cases, inl,
  inr, sym, append-nil, ◌≡◌, refl, ◌∙◌, arith,
}
use omarchy_hackertyper.Highlight.Pattern.{
  Group, plain, escaped, Reader, add, read, read_all, read_plain, read_escaped,
}
use omarchy_hackertyper.Highlight.Regex.Inversion.{literal}
use omarchy_hackertyper.Highlight.Regex.{single, Regex, set, is_word}
use omarchy_hackertyper.Highlight.Scanner.{is_syntax, escape_reg_exp}

read_plain-unescaped :
    (p : Reader) (c : ℕ) → is_syntax c ≡ false → read_plain p c ≡ some (add p (set (single c)))
unfolding read_plain
read_plain-unescaped p c e = ground arith

syntax-is_word : (c : ℕ) → is_syntax c ≡ true → is_word c ≡ false
syntax-is_word c e = ground arith

read_escaped-syntax :
    (p : Reader) (c : ℕ) → is_syntax c ≡ true → read_escaped p c ≡ some (add p (set (single c)))
unfolding read_escaped
read_escaped-syntax p c e = let w = syntax-is_word c e in ground arith

-- The list in front of another, its last element first.
abbrev pub onto {ℓ} : {A : Type ℓ} → List A → List A → List A
onto [] ys = ys
onto (x ∷ xs) ys = onto xs (x ∷ ys)

pub reverse-onto {ℓ} : {A : Type ℓ} → (xs ys : List A) → reverse (onto xs ys) ≡ reverse ys ++ xs
reverse-onto [] ys = sym (append-nil (reverse ys))
reverse-onto (x ∷ xs) ys = reverse-onto xs (x ∷ ys) ∙ reverse-cons-append x ys xs

-- The reader with further items of its group.
abbrev pub with_items : Reader → List Regex → Reader
with_items p rs = record p {
  mode = plain;
  group = record { choices = p.group.choices; items = onto rs p.group.items };
}

abbrev pub ready : List Regex → List Regex → List Group → Reader
ready choices items outer = record {
  mode = plain;
  group = record { choices = choices; items = items };
  outer = outer;
}

read_all-some :
    (p q : Reader) (c : ℕ) (cs : Text)
    → read p.mode p c ≡ some q
    → read_all p (c ∷ cs) ≡ read_all q cs
unfolding read_all
read_all-some p q c cs e = rw (e, read_all) refl

read_char :
    (choices items : List Regex) (outer : List Group) (c : ℕ) (cs : Text)
    → is_syntax c ≡ false
    → read_all (ready choices items outer) (c ∷ cs)
      ≡ read_all (ready choices (set (single c) ∷ items) outer) cs
unfolding read
read_char choices items outer c cs e =
    let p = ready choices items outer in
    read_all-some p (add p (set (single c))) c cs (read_plain-unescaped p c e)

read_syntax :
    (choices items : List Regex) (outer : List Group) (c : ℕ) (cs : Text)
    → is_syntax c ≡ true
    → read_all (ready choices items outer) (b'\\' ∷ c ∷ cs)
      ≡ read_all (ready choices (set (single c) ∷ items) outer) cs
unfolding read read_plain
read_syntax choices items outer c cs e =
    let p = ready choices items outer in
    let q = record p { mode = escaped } in
    read_all-some p q b'\\' (c ∷ cs) refl
    ∙ read_all-some q (add q (set (single c))) c cs (read_escaped-syntax q c e)

-- An escaped text adds its code units to the items.
pub read_all-escape_reg_exp :
    (t : Text) (choices items : List Regex) (outer : List Group) (rest : Text)
    → read_all (ready choices items outer) (escape_reg_exp t ++ rest)
      ≡ read_all (ready choices (onto (literal t) items) outer) rest
unfolding escape_reg_exp
read_all-escape_reg_exp [] choices items outer rest = refl
read_all-escape_reg_exp (c ∷ cs) choices items outer rest =
    let later = read_all-escape_reg_exp cs choices (set (single c) ∷ items) outer rest in
    elim (Bool-cases (is_syntax c)) [
      | inl e ↦ rw e (read_syntax choices items outer c (escape_reg_exp cs ++ rest) e ∙ later)
      | inr e ↦ rw e (read_char choices items outer c (escape_reg_exp cs ++ rest) e ∙ later)
    ]
