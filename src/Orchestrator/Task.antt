-- ===== src/Orchestrator/Task.antt =====
-- sources/task-orchestrator.ts: the types of tasks and workers, `MemoryJournal`, and `ShardRouter`.
-- An optional field that is missing or `undefined` is `none`.
use omarchy_hackertyper.Base.{
  ℕ, zero, suc, ◌+◌, ◌-◌, ◌*◌, ◌%◌, Bool, List, [], ◌∷◌, ◌++◌, Option, if◌then◌else◌, Text, codes,
  text_eq, length, drop,
}
use omarchy_hackertyper.Number.{ℤ, number}
use omarchy_hackertyper.Payload.{Engine, Json, text, num, object, Fields, end, field}
use Prim.Native.Nat.{◌^◌}

pub data QueueName : Type 0 where
  render index notify archive : QueueName

pub data TaskState : Type 0 where
  queued leased running succeeded retrying failed : TaskState

-- `TaskRecord`, with the fields of `TaskPayload`.
pub record Task : Type 0 where
  pub task_id : Text
  pub kind : QueueName
  pub body : Fields
  pub priority : ℤ
  pub attempt : ℕ
  pub max_attempts : ℕ
  pub created_at : ℕ
  pub trace : List Text
  pub state : TaskState
  pub lease_owner : Option Text
  pub lease_until : Option ℕ
  pub started_at : Option ℕ
  pub finished_at : Option ℕ
  pub last_error : Option Text

-- `WorkerSnapshot`; its `id` is its key.
pub record Worker : Type 0 where
  pub queues : List QueueName
  pub capacity : ℕ
  pub active : ℕ
  pub last_seen : ℕ
  pub draining : Bool

abbrev pub queue_text : QueueName → Text
queue_text render = codes "render"
queue_text index = codes "index"
queue_text notify = codes "notify"
queue_text archive = codes "archive"

abbrev pub state_text : TaskState → Text
state_text queued = codes "queued"
state_text leased = codes "leased"
state_text running = codes "running"
state_text succeeded = codes "succeeded"
state_text retrying = codes "retrying"
state_text failed = codes "failed"

-- `{ ...fields, ...extra }`, for keys that `fields` does not have.
abbrev pub append_fields : Fields → Fields → Fields
append_fields end extra = extra
append_fields (field k v rest) extra = field k v (append_fields rest extra)

-- `{ ...fields, key: value }`
unfoldable pub put_field : Text → Json → Fields → Fields
put_field key value end = field key value end
put_field key value (field k v rest) =
    let later = put_field key value rest in
    if text_eq k key then field k value rest else field k v later

-- `queues.join(",")`
abbrev pub join_queues : List QueueName → Text
join_queues [] = []
join_queues (q ∷ []) = queue_text q
join_queues (q ∷ r ∷ qs) = queue_text q ++ (b',' ∷ join_queues (r ∷ qs))

-- `MemoryJournal.append`, at the time `at` of `Date.now()`.
unfoldable pub append : Engine → List Text → ℕ → Text → Fields → List Text
append e lines at event fields =
    lines
    ++ e.stringify
        (object (field (codes "event") (text event) (field (codes "at") (num (number at)) fields)))
      ∷ []

-- `MemoryJournal.tail`
unfoldable pub tail : List Text → ℕ → List Text
tail lines count = drop (length lines - count) lines

-- `ShardRouter.choose`. The characters of a task's id are single code units.
unfoldable pub score : ℕ → Text → ℕ
score n [] = n
score n (c ∷ cs) = score ((n * 31 + c) % 2 ^ 32) cs

abbrev pub shard_at : List Text → ℕ → Text
shard_at [] i = codes "shard-local"
shard_at (s ∷ ss) zero = s
shard_at (s ∷ ss) (suc i) = shard_at ss i

unfoldable pub choose : List Text → Text → Text
unfolding score
choose shards task_id = shard_at shards (score 0 task_id % length shards)
