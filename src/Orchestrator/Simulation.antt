-- ===== src/Orchestrator/Simulation.antt =====
-- What each method of the orchestrator does is a sequence of steps of its tasks, and a method that
-- throws has changed nothing.
pub mod Leased
pub mod Reclaimed
use omarchy_hackertyper.Number.{pos_part}
use omarchy_hackertyper.Base.{
  text_eq_iff, ◌&&◌, ap, ℕ, zero, suc, ◌+◌, ◌≤◌, ◌<◌, Bool, true, false, not, ◌&&◌, ◌||◌, List, [],
  ◌∷◌, ◌++◌, Option, none, some, ◌==◌, if◌then◌else◌, leb, Text, codes, text_eq, Bool-cases,
  Option-cases, ◌≡◌, ◌≢◌, ◌⊎◌, refl, sym, ap, ◌∙◌, arith, inl, inr, subst, fun_ext,
}
use omarchy_hackertyper.Number.{ℤ}
use omarchy_hackertyper.Orchestrator.Admission.{submit, register_worker, heartbeat, drain}
use omarchy_hackertyper.Orchestrator.Dict.{get, set, keys, get-set}
use omarchy_hackertyper.Orchestrator.Events.{
  text_field, is_owner, is_leased, is_running, change_worker, release_worker, log, record_event,
  release, occupy,
}
use omarchy_hackertyper.Orchestrator.Filing.{Filed-IsFirst, IsFirst, queue_index-injective}
use omarchy_hackertyper.Orchestrator.Finishing.{
  begin_patch, complete_patch, fail_patch, begin, complete, fail,
}
use omarchy_hackertyper.Orchestrator.Leasing.{
  expires, is_free, lease_patch, take_lease, lease_or, lease_from, lease_by, lease,
}
use omarchy_hackertyper.Orchestrator.Machine.{
  queue_index, Orchestrator, Outcome, returned, thrown, Error, invalid_lease_transition,
  is_draining, not_owner, missing_task, M, set_queue, task_id_of, new_task, enqueue, dequeue,
  require, update, create, priority_in, created_at_in,
}
use omarchy_hackertyper.Orchestrator.Queue.{push, pop}
use omarchy_hackertyper.Orchestrator.Reclaiming.{
  release_owner, owner_or_none, reclaim_patch, is_reclaimable, reclaim, visit, reclaim_from,
  reclaim_expired,
}
use omarchy_hackertyper.Orchestrator.Steps.{
  Released, kept, freed, registers, beats, drains, Work, begins, completes, gives_up, Retry, fails,
  lapses, Step, quiet, submits, takes, works, retries, Steps, here, next, Steps-trans, is_held,
}
use omarchy_hackertyper.Orchestrator.Steps.Kept.{IsFiled, Steps-IsFiled}
use omarchy_hackertyper.Orchestrator.Task.{QueueName, Task, Worker}
use omarchy_hackertyper.Payload.{Engine, Fields}

pub record IsSimulated {A : Type 0} (resets : Bool) (s : Orchestrator)
    (result : Outcome A × Orchestrator) : Type 0 where
  pub steps : Steps resets s result.1
  pub atomic : (error : Error) → result.0 ≡ thrown error → result.1 ≡ s

pub one : {s s' : Orchestrator} {resets : Bool} → Step resets s s' → Steps resets s s'
one st = next here st

pub require-some :
    (id : Text) (s : Orchestrator) (t : Task)
    → get id s.tasks ≡ some t
    → require id s ≡ (returned t, s)
unfolding require
require-some id s t h = rw (h, require) refl

pub require-none :
    (id : Text) (s : Orchestrator)
    → get id s.tasks ≡ none
    → require id s ≡ (thrown (missing_task id), s)
unfolding require
require-none id s h = rw (h, require) refl

pub update-some :
    (id : Text) (patch : Task → Task) (s : Orchestrator) (t : Task)
    → get id s.tasks ≡ some t
    → update id patch s ≡ (returned (patch t), record s { tasks = set id (patch t) s.tasks })
unfolding update
update-some id patch s t h = rw (h, update) refl

-- A method that throws where it stands.
pub refused :
    {A : Type 0} {resets : Bool} (s : Orchestrator) (error : Error)
    → IsSimulated {A = A} resets s (thrown error, s)
refused s error = record { steps = here; atomic = λ other h. refl }

-- A method that returns.
pub moved :
    {A : Type 0} {resets : Bool} (s s' : Orchestrator) (a : A)
    → Steps resets s s'
    → IsSimulated resets s (returned a, s')
moved s s' a r = record { steps = r; atomic = λ error h. cc }

-- The test of `assertOwner`, which throws if it holds.
abbrev pub disowns : Task → Text → Bool
disowns t worker =
    not (is_owner t.lease_owner worker) || (not (is_running t.state) && not (is_leased t.state))

pub owned : (t : Task) (worker : Text) → disowns t worker ≡ false → is_held t.state ≡ true
owned t worker g = ground arith

pub owner_lem : (t : Task) (worker : Text) → disowns t worker ≡ false → t.lease_owner ≡ some worker
owner_lem t worker g = go t.lease_owner (ground arith)
  where
    go : (o : Option Text) → is_owner o worker ≡ true → o ≡ some worker
    go none h = cc
    go (some owner) h = ap some ((text_eq_iff owner worker).0 h)

module _ (e : Engine) where
  pub begin-IsSimulated :
      {resets : Bool} (id worker : Text) (now at : ℕ) (s : Orchestrator)
      → IsSimulated resets s (begin e id worker now at s)
  unfolding begin record_event log
  begin-IsSimulated id worker now at s = elim (Option-cases (get id s.tasks)) [
    | inl h ↦ rw (require-none id s h) (refused s (missing_task id))
    | inr (t, h) ↦
        elim (Bool-cases (not (is_owner t.lease_owner worker) || not (is_leased t.state))) [
          | inl g ↦ rw (require-some id s t h, g) (refused s invalid_lease_transition)
          | inr g ↦
              rw (require-some id s t h, g, update-some id (begin_patch now) s t h)
                (moved s _ _ (
                  one (
                    works id t (begin_patch now t) h (begins now (ground arith) refl) refl refl refl
                      (kept refl refl refl) refl)))
        ]
  ]

  pub complete-IsSimulated :
      {resets : Bool} (id worker : Text) (result : Fields) (now at : ℕ) (s : Orchestrator)
      → IsSimulated resets s (complete e id worker result now at s)
  unfolding complete record_event log release
  complete-IsSimulated id worker result now at s = elim (Option-cases (get id s.tasks)) [
    | inl h ↦ rw (require-none id s h) (refused s (missing_task id))
    | inr (t, h) ↦ elim (Bool-cases (disowns t worker)) [
      | inl g ↦ rw (require-some id s t h, g) (refused s not_owner)
      | inr g ↦
          rw (require-some id s t h, g, update-some id (complete_patch result now) s t h)
            (moved s _ _ (
              one (
                works id t (complete_patch result now t) h
                  (completes result now (owned t worker g) refl) refl refl refl
                  (freed worker refl (owner_lem t worker g) refl) refl)))
    ]
  ]

  pub fail-IsSimulated :
      {resets : Bool} (id worker reason : Text) (at : ℕ) (s : Orchestrator)
      → IsSimulated resets s (fail e id worker reason at s)
  unfolding fail record_event log release enqueue
  fail-IsSimulated id worker reason at s = elim (Option-cases (get id s.tasks)) [
    | inl h ↦ rw (require-none id s h) (refused s (missing_task id))
    | inr (t, h) ↦ elim (Bool-cases (disowns t worker)) [
      | inl g ↦ rw (require-some id s t h, g) (refused s not_owner)
      | inr g ↦ elim (Bool-cases (leb t.max_attempts t.attempt)) [
        | inl l ↦
            rw (require-some id s t h, g, l, update-some id (fail_patch reason true) s t h)
              (moved s _ _ (
                one (
                  works id t (fail_patch reason true t) h
                    (gives_up reason (owned t worker g) (ground arith) refl) refl refl refl
                    (freed worker refl (owner_lem t worker g) refl) refl)))
        | inr l ↦
            rw (require-some id s t h, g, l, update-some id (fail_patch reason false) s t h)
              (moved s _ _ (
                one (
                  retries id t (fail_patch reason false t) h
                    (fails reason (owned t worker g) (ground arith) refl) refl refl refl
                    (freed worker refl (owner_lem t worker g) refl) refl)))
      ]
    ]
  ]

  pub submit-IsSimulated :
      {resets : Bool} (kind : QueueName) (body : Fields) (priority : ℤ) (created at : ℕ)
      (s : Orchestrator)
      → IsSimulated resets s (submit e kind body priority created at s)
  unfolding submit record_event log enqueue create
  submit-IsSimulated kind body priority created at s = elim (Bool-cases (not s.accepting)) [
    | inl g ↦ rw g (refused s is_draining)
    | inr g ↦ rw g (
        moved s _ _
          (one (submits kind body priority created refl refl refl refl (ground arith) refl)))
  ]

  pub register_worker-IsSimulated :
      (id : Text) (queues : List QueueName) (capacity now at : ℕ) (s : Orchestrator)
      → IsSimulated true s (register_worker e id queues capacity now at s)
  unfolding register_worker log
  register_worker-IsSimulated id queues capacity now at s =
      moved s _ _ (one (quiet (registers id _ refl refl refl refl) refl refl refl))

  pub drain-IsSimulated :
      {resets : Bool} (at : ℕ) (s : Orchestrator) → IsSimulated resets s (drain e at s)
  unfolding drain log
  drain-IsSimulated at s = moved s _ _ (one (quiet (drains refl refl) refl refl refl))

pub heartbeat-IsSimulated :
    (id : Text) (active : ℤ) (now : ℕ) (s : Orchestrator)
    → IsSimulated true s (heartbeat id active now s)
unfolding heartbeat
heartbeat-IsSimulated id active now s =
    moved s _ _ (one (quiet (beats id (pos_part active) now refl refl refl) refl refl refl))
