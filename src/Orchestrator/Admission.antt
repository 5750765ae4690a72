-- ===== src/Orchestrator/Admission.antt =====
-- sources/task-orchestrator.ts: `submit`, `registerWorker`, `heartbeat`, `drain` and the views of the state.
use omarchy_hackertyper.Base.{
  ℕ, ◌+◌, Bool, true, false, not, List, [], ◌∷◌, map, Option, none, some, Text, codes,
}
use omarchy_hackertyper.Number.{ℤ, pos_part, number}
use omarchy_hackertyper.Orchestrator.Dict.{get, set}
use omarchy_hackertyper.Orchestrator.Machine.{
  Orchestrator, is_draining, M, ◌>>=◌, ◌>>◌, pure, throw_if, reads, modify, enqueue, pending_count,
  create,
}
use omarchy_hackertyper.Orchestrator.Task.{
  QueueName, Task, Worker, state_text, join_queues, choose, tail,
}
use omarchy_hackertyper.Payload.{Engine, text, num, Fields, end, field}
use omarchy_hackertyper.Orchestrator.Events.{text_field, change_worker, log, record_event}

module _ (e : Engine) where
  -- `created` and `at` are the readings of `Date.now()` in `create` and in the journal.
  unfoldable pub submit : QueueName → Fields → ℤ → ℕ → ℕ → M Text
  unfolding create enqueue record_event choose
  submit kind body priority created at = do
    accepting ← reads (λ s. s.accepting)
    throw_if (not accepting) is_draining
    task ← create kind body priority created
    enqueue kind task.task_id
    record_event e at (codes "task.queued") task (
        text_field (codes "shard")
          (choose (codes "alpha" ∷ codes "beta" ∷ codes "gamma" ∷ []) task.task_id))
    pure task.task_id

  unfoldable pub register_worker : Text → List QueueName → ℕ → ℕ → ℕ → M (Unit {0})
  unfolding log
  register_worker id queues capacity now at = do
    modify λ s. record s {
      workers =
          set id
            (record {
              queues = queues;
              capacity = capacity;
              active = 0;
              last_seen = now;
              draining = false;
            })
            s.workers;
    }
    log e at (codes "worker.registered") (
        field (codes "worker") (text id) (
          field (codes "capacity") (num (number capacity))
            (field (codes "queues") (text (join_queues queues)) end)))

  unfoldable pub drain : ℕ → M (Unit {0})
  unfolding log pending_count
  drain at = do
    modify λ s. record s {
      accepting = false;
      workers = map (λ (id, w). (id, record w { draining = true })) s.workers;
    }
    pending ← reads pending_count
    log e at (codes "orchestrator.draining") (field (codes "queued") (num (number pending)) end)

-- `heartbeat`; a negative number of active tasks counts as 0.
unfoldable pub heartbeat : Text → ℤ → ℕ → M (Unit {0})
heartbeat id active now = modify λ s. record s {
  workers =
      change_worker id (λ w. record w { active = pos_part active; last_seen = now })
        (get id s.workers) s.workers;
}

pub record Snapshot : Type 0 where
  pub accepting : Bool
  pub pending : ℕ
  pub workers : List (Text × Worker)
  pub states : List (Text × ℕ)

abbrev pub or_zero : Option ℕ → ℕ
or_zero none = 0
or_zero (some n) = n

-- The `reduce` that counts the tasks by their states.
unfoldable pub count_states : List (Text × ℕ) → List (Text × Task) → List (Text × ℕ)
count_states counts [] = counts
count_states counts ((id, task) ∷ tasks) =
    let name = state_text task.state in
    count_states (set name (or_zero (get name counts) + 1) counts) tasks

unfoldable pub snapshot : Orchestrator → Snapshot
unfolding pending_count count_states
snapshot s = record {
  accepting = s.accepting;
  pending = pending_count s;
  workers = s.workers;
  states = count_states [] s.tasks;
}

unfoldable pub recent_events : Orchestrator → List Text
unfolding tail
recent_events s = tail s.journal 12
