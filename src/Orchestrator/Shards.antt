-- ===== src/Orchestrator/Shards.antt =====
-- `ShardRouter.choose` and the ids that `submit` hands out.
use omarchy_hackertyper.Base.{
  ℕ, zero, suc, ◌+◌, ◌<◌, true, false, List, [], ◌∷◌, some, none, Text, contains, text_eq,
  text_eq_refl, length, if◌then◌else◌, ◌==◌, ◌≡◌, ◌≢◌, refl, ap, ◌∙◌, arith,
}
use omarchy_hackertyper.Number.{ℤ}
use omarchy_hackertyper.Orchestrator.Admission.{submit}
use omarchy_hackertyper.Orchestrator.Calls.{Call, run, run-Steps, new-IsFiled}
use omarchy_hackertyper.Orchestrator.Dict.{get, get-set}
use omarchy_hackertyper.Orchestrator.Events.{log, record_event}
use omarchy_hackertyper.Orchestrator.Filing.{count, waits}
use omarchy_hackertyper.Orchestrator.Machine.{
  Orchestrator, new_orchestrator, returned, create, enqueue, task_id_of, new_task, queue_index,
}
use omarchy_hackertyper.Orchestrator.Simulation.{submit-IsSimulated}
use omarchy_hackertyper.Orchestrator.Steps.Kept.{Steps-IsFiled}
use omarchy_hackertyper.Orchestrator.Task.{QueueName, Task, queued, choose, shard_at}
use omarchy_hackertyper.Payload.{Engine, Fields}

contains-shard_at :
    (shards : List Text) (i : ℕ) → i < length shards → contains shards (shard_at shards i) ≡ true
contains-shard_at [] i h = absurd (omega arith)
contains-shard_at (s ∷ ss) zero h = rw (text_eq_refl s) refl
contains-shard_at (s ∷ ss) (suc i) h = ground (arith, contains-shard_at ss i)

-- The router's answer is one of its shards, unless it has none.
pub choose_lem :
    (shards : List Text) (id : Text) → shards ≢ [] → contains shards (choose shards id) ≡ true
unfolding choose
choose_lem [] id h = absurd (h refl)
choose_lem (s ∷ ss) id h = contains-shard_at (s ∷ ss) _ (omega arith)

-- A task that was just submitted, field by field.
pub record IsFresh (id : Text) (kind : QueueName) (body : Fields) (priority : ℤ) (created : ℕ)
    (t : Task) : Type 0 where
  pub own_id : t.task_id ≡ id
  pub asked : (t.kind ≡ kind) × (t.body ≡ body) × (t.priority ≡ priority)
  pub is_queued : t.state ≡ queued
  pub untried : t.attempt ≡ 0
  pub limit : t.max_attempts ≡ 4
  pub made : t.created_at ≡ created
  pub unowned : (t.lease_owner ≡ none) × (t.lease_until ≡ none)
  pub unbegun : (t.started_at ≡ none) × (t.finished_at ≡ none) × (t.last_error ≡ none)
  pub no_trace : t.trace ≡ []

-- A submission that is accepted.
pub record IsSubmitted (e : Engine) (s : Orchestrator) (kind : QueueName) (body : Fields)
    (priority : ℤ) (created at : ℕ) (id : Text) : Type 0 where
  pub gives : (submit e kind body priority created at s).0 ≡ returned id
  pub fresh : get id s.tasks ≡ none
  pub task : Task
  pub stored : get id (submit e kind body priority created at s).1.tasks ≡ some task
  pub is_fresh : IsFresh id kind body priority created task
  -- The task stands in the queue of its kind, once, and in no other.
  pub queued_once :
      (name : QueueName)
      → count id ((submit e kind body priority created at s).1.queues name)
        ≡ (if queue_index kind == queue_index name then 1 else 0)
  pub others :
      (other : Text)
      → text_eq id other ≡ false
      → get other (submit e kind body priority created at s).1.tasks ≡ get other s.tasks

-- After any calls, an orchestrator that accepts tasks answers `submit` with an id that no task had,
-- under which there is now a task as it was asked for: queued, with no attempt of the four that it
-- has, no owner, nothing begun and an empty trace. It stands in the queue of its kind, once, and in no
-- other; the other tasks stay as they are.
pub submit_lem :
    (e : Engine) (cs : List Call) (kind : QueueName) (body : Fields) (priority : ℤ) (created at : ℕ)
    → (run e cs new_orchestrator).accepting ≡ true
    → IsSubmitted e
        (run e cs new_orchestrator)
        kind
        body
        priority
        created
        at
        (task_id_of ((run e cs new_orchestrator).sequence + 1))
unfolding submit create enqueue record_event log
submit_lem e cs kind body priority created at h =
    let s = run e cs new_orchestrator in
    let id = task_id_of (s.sequence + 1) in
    let f = Steps-IsFiled (run-Steps e cs new_orchestrator new-IsFiled) new-IsFiled in
    let after =
      Steps-IsFiled ((submit-IsSimulated e {resets = true} kind body priority created at s).steps)
        f in
    let stored : get id (submit e kind body priority created at s).1.tasks
        ≡ some (new_task id kind body priority created) =
      rw h (get-set id id _ s.tasks ∙ rw (text_eq_refl id) refl) in
    record {
      gives = rw h refl;
      fresh = f.unused (s.sequence + 1) (omega arith);
      task = new_task id kind body priority created;
      is_fresh = record {
        own_id = refl;
        asked = (refl, refl, refl);
        is_queued = refl;
        untried = refl;
        limit = refl;
        made = refl;
        unowned = (refl, refl);
        unbegun = (refl, refl, refl);
        no_trace = refl;
      };
      queued_once = λ name. after.filed name id ∙ ap (waits name) stored ∙ ground arith;
      stored = stored;
      others = λ other d. rw h (get-set id other _ s.tasks ∙ rw d refl);
    }
