-- ===== src/Orchestrator/Tally.antt =====
-- How many tasks of a table have a property.
use omarchy_hackertyper.Base.{
  ℕ, ◌+◌, Bool, List, [], ◌∷◌, none, some, if◌then◌else◌, Text, text_eq, Bool-cases, ◌≡◌, arith,
  inl, inr,
}
use omarchy_hackertyper.Orchestrator.Dict.{get, set}
use omarchy_hackertyper.Orchestrator.Task.{Task}

abbrev pub one_if : Bool → ℕ
one_if b = if b then 1 else 0

unfoldable pub tally : (Task → Bool) → List (Text × Task) → ℕ
tally p [] = 0
tally p ((_, t) ∷ tasks) = one_if (p t) + tally p tasks

pub tally-set :
    (p : Task → Bool) (key : Text) (u t : Task) (tasks : List (Text × Task))
    → get key tasks ≡ some u
    → tally p (set key t tasks) + one_if (p u) ≡ tally p tasks + one_if (p t)
unfolding get set tally
tally-set p key u t [] h = cc
tally-set p key u t ((j, v) ∷ tasks) h = elim (Bool-cases (text_eq j key)) [
  | inl e ↦
      let this : some v ≡ some u = rw e at h in let same : v ≡ u = cc in rw (e, same) (omega arith)
  | inr e ↦ let ih = tally-set p key u t tasks (rw e at h) in rw e (omega (arith, ih))
]

pub tally_added :
    (p : Task → Bool) (key : Text) (t : Task) (tasks : List (Text × Task))
    → get key tasks ≡ none
    → tally p (set key t tasks) ≡ tally p tasks + one_if (p t)
unfolding get set tally
tally_added p key t [] h = omega arith
tally_added p key t ((j, v) ∷ tasks) h = elim (Bool-cases (text_eq j key)) [
  | inl e ↦ let this : some v ≡ none = rw e at h in cc
  | inr e ↦ let ih = tally_added p key t tasks (rw e at h) in rw e (omega (arith, ih))
]
