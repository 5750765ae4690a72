-- ===== src/Orchestrator/Leasing.antt =====
-- sources/task-orchestrator.ts: `lease`.
use omarchy_hackertyper.Base.{
  ℕ, ◌+◌, Bool, not, ◌&&◌, List, [], ◌∷◌, ◌++◌, Option, none, some, if◌then◌else◌, leb, Text, codes,
}
use omarchy_hackertyper.Number.{number}
use omarchy_hackertyper.Orchestrator.Dict.{get}
use omarchy_hackertyper.Orchestrator.Machine.{M, ◌>>=◌, ◌>>◌, pure, reads, dequeue, update}
use omarchy_hackertyper.Orchestrator.Task.{QueueName, leased, Task, Worker}
use omarchy_hackertyper.Payload.{Engine, text, num, end, field}
use omarchy_hackertyper.Orchestrator.Events.{occupy, record_event}

abbrev pub expires : ℕ → ℕ
expires now = now + 25000

-- The guard at the head of `lease`.
abbrev pub is_free : Worker → Bool
is_free w = not w.draining && not (leb w.capacity w.active)

abbrev pub lease_patch : Text → ℕ → Task → Task
lease_patch id until t = record t {
  state = leased;
  lease_owner = some id;
  lease_until = some until;
  attempt = t.attempt + 1;
  trace = t.trace ++ (codes "lease:" ++ id) ∷ [];
}

module _ (e : Engine) where
  -- The body of the loop for a candidate.
  unfoldable pub take_lease : Text → ℕ → ℕ → Text → M (Option Task)
  unfolding update occupy record_event
  take_lease id now at candidate = do
    task ← update candidate (lease_patch id (expires now))
    occupy id
    record_event e at (codes "task.leased") task (
        field (codes "worker") (text id) (field (codes "expires") (num (number (expires now))) end))
    pure (some task)

  -- What the loop does with the result of `pop`; `rest` goes on with the queues that follow.
  abbrev pub lease_or : Text → ℕ → ℕ → M (Option Task) → Option Text → M (Option Task)
  lease_or id now at rest none = rest
  lease_or id now at rest (some candidate) = take_lease id now at candidate

  unfoldable pub lease_from : Text → ℕ → ℕ → List QueueName → M (Option Task)
  unfolding take_lease
  lease_from id now at [] = pure none
  lease_from id now at (name ∷ names) =
      let rest = lease_from id now at names in dequeue name >>= lease_or id now at rest

  abbrev pub lease_by : Text → ℕ → ℕ → Option Worker → M (Option Task)
  lease_by id now at none = pure none
  lease_by id now at (some w) = if is_free w then lease_from id now at w.queues else pure none

  unfoldable pub lease : Text → ℕ → ℕ → M (Option Task)
  unfolding lease_from dequeue
  lease id now at = reads (λ s. get id s.workers) >>= lease_by id now at
