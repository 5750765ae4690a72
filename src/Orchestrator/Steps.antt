-- ===== src/Orchestrator/Steps.antt =====
-- The life of the tasks and the counts of the workers, as a step relation on the orchestrator, without
-- its journal.
pub mod Kept
use omarchy_hackertyper.Base.{
  ℕ, ◌+◌, ◌≤◌, ◌<◌, Bool, true, false, List, [], ◌∷◌, ◌++◌, map, none, some, ◌⊎◌, Text, codes,
  text_eq, text_eq_iff, Bool-cases, ◌≡◌, refl, sym, ◌∙◌, arith, inl, inr,
}
use omarchy_hackertyper.Number.{ℤ}
use omarchy_hackertyper.Orchestrator.Decimal.{decimal, decimal-injective}
use omarchy_hackertyper.Orchestrator.Dict.{get, set, get-set}
use omarchy_hackertyper.Orchestrator.Events.{is_leased, change_worker, release_worker}
use omarchy_hackertyper.Orchestrator.Filing.{
  Filed, Filed-set, Filed-push, Filed-pop, is_waiting, waits,
}
use omarchy_hackertyper.Orchestrator.Finishing.{begin_patch, complete_patch, fail_patch}
use omarchy_hackertyper.Orchestrator.Leasing.{lease_patch, is_free}
use omarchy_hackertyper.Orchestrator.Machine.{
  Orchestrator, set_queue, task_id_of, new_task, priority_in, created_at_in,
}
use omarchy_hackertyper.Orchestrator.Queue.{push}
use omarchy_hackertyper.Orchestrator.Reclaiming.{reclaim_patch}
use omarchy_hackertyper.Orchestrator.Task.{QueueName, TaskState, leased, running, Task, Worker}
use omarchy_hackertyper.Payload.{Fields}

-- A worker holds the task.
abbrev pub is_held : TaskState → Bool
is_held leased = true
is_held running = true
is_held _ = false

-- A task in the hands of a worker, and what it becomes without leaving them for a queue.
pub data Work (u t : Task) : Type 0 where
  begins : (now : ℕ) → is_leased u.state ≡ true → t ≡ begin_patch now u → Work u t
  completes :
      (result : Fields) (now : ℕ)
      → is_held u.state ≡ true
      → t ≡ complete_patch result now u
      → Work u t
  gives_up :
      (reason : Text)
      → is_held u.state ≡ true
      → u.max_attempts ≤ u.attempt
      → t ≡ fail_patch reason true u
      → Work u t

-- A task that goes back to its queue.
pub data Retry (u t : Task) : Type 0 where
  fails :
      (reason : Text)
      → is_held u.state ≡ true
      → u.attempt < u.max_attempts
      → t ≡ fail_patch reason false u
      → Retry u t
  lapses : is_held u.state ≡ true → t ≡ reclaim_patch u → Retry u t

-- What becomes of the workers when a task is changed: its owner is released when it leaves its hands.
pub data Released (u t : Task) (before after : List (Text × Worker)) : Type 0 where
  kept :
      is_held t.state ≡ true
      → t.lease_owner ≡ u.lease_owner
      → after ≡ before
      → Released u t before after
  freed :
      (owner : Text)
      → is_held t.state ≡ false
      → u.lease_owner ≡ some owner
      → after ≡ change_worker owner release_worker (get owner before) before
      → Released u t before after
  -- An empty name counts as no owner when a lease has expired.
  unnamed :
      is_held t.state ≡ false
      → (u.lease_owner ≡ none) ⊎ (u.lease_owner ≡ some [])
      → after ≡ before
      → Released u t before after

-- What concerns the workers only. Their counts are set only where `resets` is true.
pub data Control (resets : Bool) (s s' : Orchestrator) : Type 0 where
  registers :
      (id : Text) (w : Worker)
      → w.active ≡ 0
      → s'.workers ≡ set id w s.workers
      → s'.accepting ≡ s.accepting
      → resets ≡ true
      → Control resets s s'
  beats :
      (id : Text) (active now : ℕ)
      → s'.workers
        ≡ change_worker id
            (λ w. record w { active = active; last_seen = now })
            (get id s.workers)
            s.workers
      → s'.accepting ≡ s.accepting
      → resets ≡ true
      → Control resets s s'
  drains :
      s'.workers ≡ map (λ (id, w). (id, record w { draining = true })) s.workers
      → s'.accepting ≡ false
      → Control resets s s'

pub data Step (resets : Bool) (s s' : Orchestrator) : Type 0 where
  quiet :
      Control resets s s'
      → s'.queues ≡ s.queues
      → s'.tasks ≡ s.tasks
      → s'.sequence ≡ s.sequence
      → Step resets s s'
  submits :
      (kind : QueueName) (body : Fields) (priority : ℤ) (created : ℕ)
      → s'.queues
        ≡ set_queue kind
            (push
              (priority_in s'.tasks)
              (created_at_in s'.tasks)
              (task_id_of (s.sequence + 1))
              (s.queues kind))
            s.queues
      → s'.tasks
        ≡ set
            (task_id_of (s.sequence + 1))
            (new_task (task_id_of (s.sequence + 1)) kind body priority created)
            s.tasks
      → s'.sequence ≡ s.sequence + 1
      → s'.workers ≡ s.workers
      → s.accepting ≡ true
      → s'.accepting ≡ s.accepting
      → Step resets s s'
  takes :
      (name : QueueName) (id : Text) (rest : List Text) (u : Task) (worker : Text) (until : ℕ)
      → s.queues name ≡ id ∷ rest
      → get id s.tasks ≡ some u
      → is_waiting u.state ≡ true
      → s'.queues ≡ set_queue name rest s.queues
      → s'.tasks ≡ set id (lease_patch worker until u) s.tasks
      → s'.sequence ≡ s.sequence
      → (w : Worker) → get worker s.workers ≡ some w
      → is_free w ≡ true
      → s'.workers ≡ set worker (record w { active = w.active + 1 }) s.workers
      → s'.accepting ≡ s.accepting
      → Step resets s s'
  works :
      (id : Text) (u t : Task)
      → get id s.tasks ≡ some u
      → Work u t
      → s'.queues ≡ s.queues
      → s'.tasks ≡ set id t s.tasks
      → s'.sequence ≡ s.sequence
      → Released u t s.workers s'.workers
      → s'.accepting ≡ s.accepting
      → Step resets s s'
  retries :
      (id : Text) (u t : Task)
      → get id s.tasks ≡ some u
      → Retry u t
      → s'.queues
        ≡ set_queue u.kind
            (push (priority_in s'.tasks) (created_at_in s'.tasks) id (s.queues u.kind))
            s.queues
      → s'.tasks ≡ set id t s.tasks
      → s'.sequence ≡ s.sequence
      → Released u t s.workers s'.workers
      → s'.accepting ≡ s.accepting
      → Step resets s s'

pub data Steps (resets : Bool) (s : Orchestrator) : Orchestrator → Type 0 where
  here : Steps resets s s
  next : {s' s'' : Orchestrator} → Steps resets s s' → Step resets s' s'' → Steps resets s s''

pub Steps-trans :
    {resets : Bool} {s t u : Orchestrator} → Steps resets s t → Steps resets t u → Steps resets s u
Steps-trans r here = r
Steps-trans r (next q st) = next (Steps-trans r q) st
