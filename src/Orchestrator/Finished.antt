-- ===== src/Orchestrator/Finished.antt =====
-- What `complete` and `fail` make of a task, of its queue and of its worker.
use omarchy_hackertyper.Base.{
  ℕ, ◌+◌, ◌-◌, ◌≤◌, ◌<◌, true, false, List, none, some, if◌then◌else◌, leb, Text, codes, text_eq,
  text_eq_refl, text_eq_iff, Bool-cases, ◌≡◌, refl, ◌∙◌, arith, inl, inr, ==_iff,
}
use omarchy_hackertyper.Orchestrator.Dict.{get, set, get-set}
use omarchy_hackertyper.Orchestrator.Events.{
  log, record_event, release, change_worker, release_worker,
}
use omarchy_hackertyper.Orchestrator.Filing.{count, count-push}
use omarchy_hackertyper.Orchestrator.Finishing.{complete_patch, fail_patch, complete, fail}
use omarchy_hackertyper.Orchestrator.Machine.{
  Orchestrator, enqueue, queue_index, priority_in, created_at_in,
}
use omarchy_hackertyper.Orchestrator.Owners.{Holds, holds-disowns}
use omarchy_hackertyper.Orchestrator.Simulation.{require-some, update-some}
use omarchy_hackertyper.Orchestrator.Task.{Task, Worker, succeeded, failed, retrying, put_field}
use omarchy_hackertyper.Payload.{Engine, Fields, Json, end, field, object, field_of}

-- The table has the task `t` at `id`, and the worker has one task less.
pub record IsReleased (s s' : Orchestrator) (id worker : Text) (t : Task) : Type 0 where
  pub stored : get id s'.tasks ≡ some t
  pub worker_freed :
      (w : Worker)
      → get worker s.workers ≡ some w
      → get worker s'.workers ≡ some (record w { active = w.active - 1 })
  pub no_lease : t.lease_until ≡ none

pub record IsCompleted (s s' : Orchestrator) (id worker : Text) (u : Task) (result : Fields)
    (now : ℕ) : Type 0 where
  pub task : Task
  pub released : IsReleased s s' id worker task
  pub is_succeeded : task.state ≡ succeeded
  pub at_time : task.finished_at ≡ some now
  pub result_stored : field_of task.body (codes "result") ≡ some (object result)
  pub body_kept :
      (key : Text)
      → text_eq (codes "result") key ≡ false
      → field_of task.body key ≡ field_of u.body key
  pub same_queues : s'.queues ≡ s.queues

pub record IsFailed (s s' : Orchestrator) (id worker reason : Text) (u : Task) : Type 0 where
  pub task : Task
  pub released : IsReleased s s' id worker task
  pub because : task.last_error ≡ some reason
  pub same_attempt : task.attempt ≡ u.attempt
  pub at_limit : u.max_attempts ≤ u.attempt → (task.state ≡ failed) × (s'.queues ≡ s.queues)
  pub below_limit :
      u.attempt < u.max_attempts
      → (task.state ≡ retrying) × (count id (s'.queues u.kind) ≡ count id (s.queues u.kind) + 1)

field_of-put_field :
    (k key : Text) (v : Json) (fields : Fields)
    → field_of (put_field k v fields) key ≡ (if text_eq k key then some v else field_of fields key)
unfolding put_field
field_of-put_field k key v end = refl
field_of-put_field k key v (field j w rest) =
    ground (
      arith,
      text_eq_iff k key,
      text_eq_iff j key,
      text_eq_iff j k,
      field_of-put_field k key v rest,
    )

freed :
    (worker : Text) (workers : List (Text × Worker)) (w : Worker)
    → get worker workers ≡ some w
    → get worker (change_worker worker release_worker (get worker workers) workers)
      ≡ some (record w { active = w.active - 1 })
freed worker workers w h = rw h (get-set worker worker _ workers ∙ rw (text_eq_refl worker) refl)

module _ (e : Engine) (s : Orchestrator) (id worker : Text) (h : Holds s id worker) where
  stored_task : (t : Task) → get id (set id t s.tasks) ≡ some t
  stored_task t = get-set id id t s.tasks ∙ rw (text_eq_refl id) refl

  complete_lem :
      (result : Fields) (now at : ℕ)
      → IsCompleted s (complete e id worker result now at s).1 id worker h.task result now
  unfolding complete record_event log release
  complete_lem result now at =
      let t = h.task in
      rw
        (
          require-some id s t h.found,
          holds-disowns t worker h.by_worker h.held,
          update-some id (complete_patch result now) s t h.found,
        )
        (record {
          task = complete_patch result now t;
          released = record {
            stored = stored_task (complete_patch result now t);
            worker_freed = λ w k. freed worker s.workers w k;
            no_lease = refl;
          };
          is_succeeded = refl;
          at_time = refl;
          result_stored =
              field_of-put_field (codes "result") (codes "result") (object result) t.body;
          body_kept =
              λ key d. field_of-put_field (codes "result") key (object result) t.body ∙ rw d refl;
          same_queues = refl;
        })

  fail_lem :
      (reason : Text) (at : ℕ) → IsFailed s (fail e id worker reason at s).1 id worker reason h.task
  unfolding fail record_event log release enqueue
  fail_lem reason at =
      let t = h.task in
      let g = holds-disowns t worker h.by_worker h.held in
      let tasks = set id (fail_patch reason false t) s.tasks in
      elim (Bool-cases (leb t.max_attempts t.attempt)) [
        | inl l ↦
            rw
              (
                require-some id s t h.found,
                g,
                l,
                update-some id (fail_patch reason true) s t h.found,
              )
              (record {
                task = fail_patch reason true t;
                released = record {
                  stored = stored_task (fail_patch reason true t);
                  worker_freed = λ w k. freed worker s.workers w k;
                  no_lease = refl;
                };
                because = refl;
                same_attempt = refl;
                at_limit = λ x. (refl, refl);
                below_limit = λ x. absurd (ground arith);
              })
        | inr l ↦
            rw
              (
                require-some id s t h.found,
                g,
                l,
                update-some id (fail_patch reason false) s t h.found,
              )
              (record {
                task = fail_patch reason false t;
                released = record {
                  stored = stored_task (fail_patch reason false t);
                  worker_freed = λ w k. freed worker s.workers w k;
                  no_lease = refl;
                };
                because = refl;
                same_attempt = refl;
                at_limit = λ x. absurd (ground arith);
                below_limit = λ x. (
                  refl,
                  rw ((==_iff (queue_index t.kind) (queue_index t.kind)).1 refl) (
                      count-push (priority_in tasks) (created_at_in tasks) id id (s.queues t.kind)
                      ∙ rw (text_eq_refl id) refl),
                );
              })
      ]

-- Where a worker holds a task, `complete` makes it succeeded at that time, with the result in its body
-- and the rest of the body kept; `fail` keeps the reason, and makes it failed if its attempts have
-- reached their limit, otherwise it is to be retried and stands once more in the queue of its kind.
-- Both end the lease, and the worker, if it is known, has one task less.
pub finish_lem :
    (e : Engine) (s : Orchestrator) (id worker reason : Text) (result : Fields) (now at : ℕ)
    (h : Holds s id worker)
    → IsCompleted s (complete e id worker result now at s).1 id worker h.task result now
      × IsFailed s (fail e id worker reason at s).1 id worker reason h.task
finish_lem e s id worker reason result now at h =
    (complete_lem e s id worker h result now at, fail_lem e s id worker h reason at)
