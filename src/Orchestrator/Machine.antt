-- ===== src/Orchestrator/Machine.antt =====
-- sources/task-orchestrator.ts: `TaskOrchestrator`, with its `TaskTable`. A method takes the state to
-- a result and the state after it; an exception, too, leaves a state behind. The readings of
-- `clock.now()` and of `Date.now()` are arguments, one for each call.
use omarchy_hackertyper.Base.{
  ℕ, ◌+◌, Bool, true, false, List, [], ◌++◌, Option, none, some, ◌==◌, if◌then◌else◌, Text, codes,
  length,
}
use omarchy_hackertyper.Number.{ℤ, pos}
use omarchy_hackertyper.Orchestrator.Decimal.{decimal}
use omarchy_hackertyper.Orchestrator.Dict.{get, set}
use omarchy_hackertyper.Orchestrator.Queue.{push, pop}
use omarchy_hackertyper.Orchestrator.Task.{
  QueueName, render, index, notify, archive, queued, Task, Worker,
}
use omarchy_hackertyper.Payload.{Fields}

pub record Orchestrator : Type 0 where
  pub queues : QueueName → List Text
  pub workers : List (Text × Worker)
  -- `TaskTable`: its `records` and its `sequence`
  pub tasks : List (Text × Task)
  pub sequence : ℕ
  pub journal : List Text
  pub accepting : Bool

-- The constructor.
abbrev pub new_orchestrator : Orchestrator
new_orchestrator = record {
  queues = λ name. [];
  workers = [];
  tasks = [];
  sequence = 0;
  journal = [];
  accepting = true;
}

pub data Error : Type 0 where
  is_draining invalid_lease_transition not_owner : Error
  unknown_task missing_task : Text → Error

pub data Outcome (A : Type 0) : Type 0 where
  returned : A → Outcome A
  thrown : Error → Outcome A

abbrev pub M : Type 0 → Type 0
M A = Orchestrator → Outcome A × Orchestrator

abbrev pub go_on : {A B : Type 0} → Outcome A × Orchestrator → (A → M B) → Outcome B × Orchestrator
go_on (returned a, s) f = f a s
go_on (thrown e, s) f = (thrown e, s)

infixl 5 ◌>>=◌ ◌>>◌
abbrev pub ◌>>=◌ : {A B : Type 0} → M A → (A → M B) → M B
◌>>=◌ m f s = go_on (m s) f

abbrev pub ◌>>◌ : {A B : Type 0} → M A → M B → M B
◌>>◌ m k s = go_on (m s) (λ a. k)

abbrev pub pure : {A : Type 0} → A → M A
pure a s = (returned a, s)

abbrev pub throw_if : Bool → Error → M (Unit {0})
throw_if true e s = (thrown e, s)
throw_if false e s = (returned tt, s)

abbrev pub reads : {A : Type 0} → (Orchestrator → A) → M A
reads f s = (returned (f s), s)

abbrev pub modify : (Orchestrator → Orchestrator) → M (Unit {0})
modify f s = (returned tt, f s)

-- Queues.
abbrev pub queue_index : QueueName → ℕ
queue_index render = 0
queue_index index = 1
queue_index notify = 2
queue_index archive = 3

abbrev pub set_queue : QueueName → List Text → (QueueName → List Text) → QueueName → List Text
set_queue name q queues other = if queue_index other == queue_index name then q else queues other

-- What the comparison reads through a reference to a task.
abbrev pub priority_of : Option Task → ℤ
priority_of none = pos 0
priority_of (some t) = t.priority

abbrev pub created_at_of : Option Task → ℕ
created_at_of none = 0
created_at_of (some t) = t.created_at

abbrev pub priority_in : List (Text × Task) → Text → ℤ
priority_in tasks id = priority_of (get id tasks)

abbrev pub created_at_in : List (Text × Task) → Text → ℕ
created_at_in tasks id = created_at_of (get id tasks)

-- `queues.get(kind)?.push(task)`
unfoldable pub enqueue : QueueName → Text → M (Unit {0})
unfolding push
enqueue kind id = modify λ s. record s {
  queues =
      set_queue kind (push (priority_in s.tasks) (created_at_in s.tasks) id (s.queues kind))
        s.queues;
}

-- `queue?.pop()`
unfoldable pub dequeue : QueueName → M (Option Text)
unfolding pop
dequeue name s =
    let (candidate, rest) = pop (s.queues name) in
    (returned candidate, record s { queues = set_queue name rest s.queues })

-- `pendingCount`
unfoldable pub pending_count : Orchestrator → ℕ
pending_count s =
    length (s.queues render)
    + length (s.queues index)
    + length (s.queues notify)
    + length (s.queues archive)

-- `TaskTable`.
abbrev pub task_id_of : ℕ → Text
task_id_of n = codes "orchestrator-" ++ decimal n

abbrev pub new_task : Text → QueueName → Fields → ℤ → ℕ → Task
new_task id kind body priority created = record {
  task_id = id;
  kind = kind;
  body = body;
  priority = priority;
  attempt = 0;
  max_attempts = 4;
  created_at = created;
  trace = [];
  state = queued;
  lease_owner = none;
  lease_until = none;
  started_at = none;
  finished_at = none;
  last_error = none;
}

unfoldable pub create : QueueName → Fields → ℤ → ℕ → M Task
create kind body priority created s =
    let id = task_id_of (s.sequence + 1) in
    let task = new_task id kind body priority created in
    (returned task, record s { sequence = s.sequence + 1; tasks = set id task s.tasks })

-- `update`, where the patch is what `Object.assign` does to the record.
unfoldable pub update : Text → (Task → Task) → M Task
update id patch s = elim (get id s.tasks) [
  | none ↦ (thrown (unknown_task id), s)
  | some current ↦ (returned (patch current), record s { tasks = set id (patch current) s.tasks })
]

-- `require`
unfoldable pub require : Text → M Task
require id s = elim (get id s.tasks) [
  | none ↦ (thrown (missing_task id), s)
  | some task ↦ (returned task, s)
]
