-- ===== src/Orchestrator/Decimal.antt =====
-- sources/task-orchestrator.ts: a natural number within a template literal, in decimal digits.
use omarchy_hackertyper.Base.{
  ℕ, zero, suc, ◌+◌, ◌-◌, ◌*◌, ◌%◌, ◌≤◌, ◌<◌, [], ◌∷◌, ◌++◌, if◌then◌else◌, ltb, Text, ◌≡◌, refl,
  ap, ◌∙◌, arith, Bool-cases, inl, inr,
}
use Prim.Native.Nat.{◌/◌}

-- With a bound on the digits.
unfoldable pub digits : ℕ → ℕ → Text
digits zero n = []
digits (suc fuel) n =
    let more = digits fuel (n / 10) ++ (b'0' + n % 10) ∷ [] in
    if ltb n 10 then (b'0' + n) ∷ [] else more

-- `${n}`: a number has fewer digits than its successor.
unfoldable pub decimal : ℕ → Text
unfolding digits
decimal n = digits (suc n) n

-- The number that some digits stand for, behind a number read before.
value : ℕ → Text → ℕ
value n [] = n
value n (c ∷ cs) = value (n * 10 + (c - b'0')) cs

value-append : (n : ℕ) (s t : Text) → value n (s ++ t) ≡ value (value n s) t
unfolding value
value-append n [] t = refl
value-append n (c ∷ s) t = value-append (n * 10 + (c - b'0')) s t

value-digits : (fuel n : ℕ) → n < fuel → value 0 (digits fuel n) ≡ n
unfolding value digits
value-digits zero n h = absurd (omega arith)
value-digits (suc fuel) n h = elim (Bool-cases (ltb n 10)) [
  | inl e ↦ rw e (omega arith)
  | inr e ↦
      let big : 10 ≤ n = ground arith in
      let rest : value 0 (digits fuel (n / 10)) ≡ n / 10 =
        value-digits fuel (n / 10) (omega arith) in
      rw e (value-append 0 (digits fuel (n / 10)) ((b'0' + n % 10) ∷ []) ∙ omega (arith, rest))
]

-- Different numbers are written differently.
pub decimal-injective : (a b : ℕ) → decimal a ≡ decimal b → a ≡ b
unfolding decimal
decimal-injective a b e =
    let same : value 0 (digits (suc a) a) ≡ value 0 (digits (suc b) b) = ap (value 0) e in
    omega (arith, value-digits (suc a) a (omega arith), value-digits (suc b) b (omega arith))
