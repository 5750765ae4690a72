-- ===== src/Orchestrator/Queue.antt =====
-- sources/task-orchestrator.ts: `PriorityQueue`. The entries of the program's queues are references
-- to tasks; what is read through them, `priority` and `createdAt`, are arguments.
pub mod Order
use omarchy_hackertyper.Base.{
  ℕ, Bool, List, [], ◌∷◌, ◌++◌, Option, none, some, if◌then◌else◌, length,
}
use omarchy_hackertyper.Number.{ℤ, pos, ◌-ℤ◌, leb_ℤ, is_zero}

module _ {ℓ} {A : Type ℓ} (priority : A → ℤ) (created_at : A → ℕ) where
  -- `b.priority - a.priority || a.createdAt - b.createdAt`
  unfoldable pub compare_entries : A → A → ℤ
  compare_entries a b =
      let d = priority b -ℤ priority a in
      if is_zero d then pos (created_at a) -ℤ pos (created_at b) else d

  abbrev pub not_after : A → A → Bool
  not_after a b = leb_ℤ (compare_entries a b) (pos 0)

  -- `Array.prototype.sort`, which keeps the order of entries that compare equal.
  unfoldable pub insert : A → List A → List A
  unfolding compare_entries
  insert a [] = a ∷ []
  insert a (b ∷ bs) = let rest = insert a bs in if not_after a b then a ∷ b ∷ bs else b ∷ rest

  unfoldable pub sort : List A → List A
  unfolding insert
  sort [] = []
  sort (a ∷ as') = insert a (sort as')

  unfoldable pub push : A → List A → List A
  unfolding sort
  push value entries = sort (entries ++ value ∷ [])

-- `pop`: the first entry, and the entries that stay.
unfoldable pub pop {ℓ} : {A : Type ℓ} → List A → Option A × List A
pop [] = (none, [])
pop (a ∷ rest) = (some a, rest)
