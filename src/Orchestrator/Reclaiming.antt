-- ===== src/Orchestrator/Reclaiming.antt =====
-- sources/task-orchestrator.ts: `reclaimExpired`.
use omarchy_hackertyper.Base.{
  ℕ, ◌+◌, Bool, false, ◌&&◌, ◌||◌, List, [], ◌∷◌, ◌++◌, Option, none, some, if◌then◌else◌, leb,
  Text, codes,
}
use omarchy_hackertyper.Orchestrator.Dict.{get, keys}
use omarchy_hackertyper.Orchestrator.Machine.{M, ◌>>=◌, ◌>>◌, pure, reads, enqueue, update}
use omarchy_hackertyper.Orchestrator.Task.{retrying, Task}
use omarchy_hackertyper.Payload.{Engine}
use omarchy_hackertyper.Orchestrator.Events.{
  text_field, is_running, is_leased, release, record_event,
}

-- `(task.leaseUntil ?? Infinity) <= now`
abbrev pub has_expired : Option ℕ → ℕ → Bool
has_expired none now = false
has_expired (some until) now = leb until now

abbrev pub is_reclaimable : Task → ℕ → Bool
is_reclaimable task now =
    (is_leased task.state || is_running task.state) && has_expired task.lease_until now

-- `if (owner) this.release(owner)`: an empty name is no owner.
abbrev pub release_owner : Option Text → M (Unit {0})
release_owner none = pure tt
release_owner (some []) = pure tt
release_owner (some (c ∷ cs)) = release (c ∷ cs)

abbrev pub owner_or_none : Option Text → Text
owner_or_none none = codes "none"
owner_or_none (some owner) = owner

abbrev pub reclaim_patch : Task → Task
reclaim_patch t = record t {
  state = retrying;
  lease_owner = none;
  lease_until = none;
  last_error = some (codes "lease expired");
  trace = t.trace ++ codes "reclaimed" ∷ [];
}

module _ (e : Engine) where
  unfoldable pub reclaim : Text → Task → ℕ → M (Unit {0})
  unfolding update enqueue release record_event
  reclaim id task at = do
    updated ← update id reclaim_patch
    enqueue updated.kind id
    release_owner task.lease_owner
    record_event e at (codes "task.reclaimed") updated
        (text_field (codes "previousOwner") (owner_or_none task.lease_owner))

  -- A task of `table.all()`, read through its reference; 1 if it is reclaimed.
  abbrev pub visit : Text → ℕ → ℕ → Option Task → M ℕ
  visit id now at none = pure 0
  visit id now at (some task) =
      if is_reclaimable task now then reclaim id task at >> pure 1 else pure 0

  -- The loop, with the readings of the two clocks at each task.
  unfoldable pub reclaim_from : (Text → ℕ) → (Text → ℕ) → List Text → M ℕ
  unfolding reclaim
  reclaim_from now at [] = pure 0
  reclaim_from now at (id ∷ ids) = do
    task ← reads (λ s. get id s.tasks)
    n ← visit id (now id) (at id) task
    m ← reclaim_from now at ids
    pure (n + m)

  unfoldable pub reclaim_expired : (Text → ℕ) → (Text → ℕ) → M ℕ
  unfolding reclaim_from
  reclaim_expired now at = reads (λ s. keys s.tasks) >>= reclaim_from now at
