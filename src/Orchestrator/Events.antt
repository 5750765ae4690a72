-- ===== src/Orchestrator/Events.antt =====
-- sources/task-orchestrator.ts: what the methods of `TaskOrchestrator` share: the journal, and the counts
-- of the workers.
use omarchy_hackertyper.Base.{
  ℕ, ◌+◌, ◌-◌, Bool, true, false, not, ◌&&◌, ◌||◌, List, Option, none, some, Text, codes, text_eq,
}
use omarchy_hackertyper.Number.{number}
use omarchy_hackertyper.Orchestrator.Dict.{get, set}
use omarchy_hackertyper.Orchestrator.Machine.{not_owner, M, throw_if, modify}
use omarchy_hackertyper.Orchestrator.Task.{
  TaskState, leased, running, Task, Worker, queue_text, state_text, append,
}
use omarchy_hackertyper.Payload.{Engine, text, num, Fields, end, field}

abbrev pub text_field : Text → Text → Fields
text_field key value = field key (text value) end

abbrev pub is_owner : Option Text → Text → Bool
is_owner none worker = false
is_owner (some owner) worker = text_eq owner worker

abbrev pub is_running : TaskState → Bool
is_running running = true
is_running _ = false

abbrev pub is_leased : TaskState → Bool
is_leased leased = true
is_leased _ = false

-- `assertOwner`
abbrev pub assert_owner : Task → Text → M (Unit {0})
assert_owner task worker =
    throw_if
      (not (is_owner task.lease_owner worker)
        || (not (is_running task.state) && not (is_leased task.state)))
      not_owner

abbrev pub release_worker : Worker → Worker
release_worker w = record w { active = w.active - 1 }

-- A worker that is found in the map is changed in place.
abbrev pub change_worker :
    Text → (Worker → Worker) → Option Worker → List (Text × Worker) → List (Text × Worker)
change_worker id f none workers = workers
change_worker id f (some w) workers = set id (f w) workers

-- `release`
unfoldable pub release : Text → M (Unit {0})
release id =
    modify λ s. record s { workers = change_worker id release_worker (get id s.workers) s.workers }

-- `worker.active += 1`
unfoldable pub occupy : Text → M (Unit {0})
occupy id = modify λ s. record s {
  workers = change_worker id (λ w. record w { active = w.active + 1 }) (get id s.workers) s.workers;
}

module _ (e : Engine) where
  -- `this.journal.append`
  unfoldable pub log : ℕ → Text → Fields → M (Unit {0})
  unfolding append
  log at event fields = modify λ s. record s { journal = append e s.journal at event fields }

  -- `record`
  unfoldable pub record_event : ℕ → Text → Task → Fields → M (Unit {0})
  unfolding log
  record_event at event task extra = log at event (
      field (codes "task") (text task.task_id) (
        field (codes "queue") (text (queue_text task.kind)) (
          field (codes "attempt") (num (number task.attempt))
            (field (codes "state") (text (state_text task.state)) extra))))
