-- ===== src/Tests/Orchestrator.antt =====
-- sources/task-orchestrator.ts.
pub mod Invariants
pub mod Methods
use omarchy_hackertyper.Base.{
  ℕ, ◌+◌, true, false, List, [], ◌∷◌, ◌++◌, Option, none, some, Text, codes, ◌≡◌, ◌⊎◌, ◌↔◌, refl,
}
use omarchy_hackertyper.Number.{pos, negsuc}
use omarchy_hackertyper.Orchestrator.Admission.{
  submit, register_worker, drain, snapshot, recent_events,
}
use omarchy_hackertyper.Orchestrator.Attempts.{IsTraced, run-IsTraced}
use omarchy_hackertyper.Orchestrator.Calls.{
  Call, to_submit, to_register, to_lease, to_begin, to_complete, to_reclaim, to_drain, apply, run,
  run-Filed, apply-atomic,
}
use omarchy_hackertyper.Orchestrator.Capacity.Runs.{run-IsWithin}
use omarchy_hackertyper.Orchestrator.Capacity.{held_by, IsWithin}
use omarchy_hackertyper.Orchestrator.Snapshots.{IsCounted, run-IsCounted}
use omarchy_hackertyper.Orchestrator.Tally.{tally}
use omarchy_hackertyper.Orchestrator.Decimal.{decimal}
use omarchy_hackertyper.Orchestrator.Demo.{demo}
use omarchy_hackertyper.Orchestrator.Dict.{get, set}
use omarchy_hackertyper.Orchestrator.Draining.{drain-submit}
use omarchy_hackertyper.Orchestrator.Filing.{Filed}
use omarchy_hackertyper.Orchestrator.Finished.{IsCompleted, IsFailed, finish_lem}
use omarchy_hackertyper.Orchestrator.Finishing.{begin, complete, fail}
use omarchy_hackertyper.Orchestrator.History.{Stays, run-Stays}
use omarchy_hackertyper.Orchestrator.Leases.{IsGranted, IsIdle, lease_lem}
use omarchy_hackertyper.Orchestrator.Leasing.{lease, lease_patch}
use omarchy_hackertyper.Orchestrator.Machine.{
  Orchestrator, new_orchestrator, thrown, not_owner, is_draining, task_id_of, new_task,
}
use omarchy_hackertyper.Orchestrator.Owners.{Holds, finish_iff, is_returned}
use omarchy_hackertyper.Orchestrator.Queue.Order.{IsQueued, push-IsQueued}
use omarchy_hackertyper.Orchestrator.Queue.{push}
use omarchy_hackertyper.Orchestrator.Reclaiming.{reclaim_expired}
use omarchy_hackertyper.Orchestrator.Shards.{IsSubmitted, submit_lem}
use omarchy_hackertyper.Orchestrator.Sorted.{AllSorted, run-AllSorted}
use omarchy_hackertyper.Orchestrator.Sweep.Expired.{IsSweep, reclaim_expired_lem}
use omarchy_hackertyper.Orchestrator.Task.{
  render, index, notify, TaskState, succeeded, leased, Task, Worker,
}
use omarchy_hackertyper.Payload.{Engine, end}

abbrev pub plain_engine : Engine
plain_engine = record { parse = λ t. none; stringify = λ j. []; to_text = λ j. [] }

abbrev pub blue : Text
blue = codes "blue"

abbrev first_id : Text
first_id = codes "orchestrator-1"

abbrev pub second_id : Text
second_id = codes "orchestrator-2"

-- Two tasks, and a worker that takes the second, which has the higher priority.
abbrev pub calls : List Call
calls =
    to_register blue (notify ∷ render ∷ []) 2 0 0
    ∷ to_submit render end (pos 1) 10 10
    ∷ to_submit render end (pos 5) 11 11
    ∷ to_lease blue 20 20
    ∷ []

abbrev pub state : Orchestrator
state = run plain_engine calls new_orchestrator

-- All that the methods call.
pub program : Unit {0}
unfolding submit register_worker lease begin complete fail reclaim_expired drain demo get set
    decimal recent_events snapshot
program = tt

abbrev state_of : Option Task → Option TaskState
state_of none = none
state_of (some t) = some t.state

demo_state : state_of (get first_id (demo plain_engine 7 new_orchestrator).1.tasks) ≡ some succeeded
unfolding program
demo_state = refl

leased_second : state_of (get second_id state.tasks) ≡ some leased
unfolding program
leased_second = refl

queue_left : state.queues render ≡ first_id ∷ []
unfolding program
queue_left = refl

abbrev pub second_task : Task
second_task = lease_patch blue 25020 (new_task second_id render end (pos 5) 11)

pub second_known : get second_id state.tasks ≡ some second_task
unfolding program
second_known = refl

abbrev pub blue_worker : Worker
blue_worker = record {
  queues = notify ∷ render ∷ [];
  capacity = 2;
  active = 1;
  last_seen = 0;
  draining = false;
}

pub blue_known : get blue state.workers ≡ some blue_worker
unfolding program
blue_known = refl

-- The lease has expired, and the task waits again, behind none of a lower priority.
reclaimed_queue :
    (reclaim_expired plain_engine (λ id. 25020) (λ id. 25020) state).1.queues render
    ≡ second_id ∷ first_id ∷ []
unfolding program
reclaimed_queue = refl

abbrev pub more_calls : List Call
more_calls = to_begin second_id blue 21 21 ∷ to_complete second_id blue end 22 22 ∷ []

-- A worker that is registered again is given tasks beyond its capacity.
overfull :
    held_by blue
      (run plain_engine
        (to_register blue (render ∷ []) 1 0 0
          ∷ to_submit render end (pos 0) 0 0
          ∷ to_submit render end (pos 0) 0 0
          ∷ to_lease blue 1 1
          ∷ to_register blue (render ∷ []) 1 2 2
          ∷ to_lease blue 3 3
          ∷ [])
        new_orchestrator).tasks
    ≡ 2
unfolding program tally
overfull = refl

-- A lease that expires is given out again however often the task was attempted.
abbrev lost_lease : List Call
lost_lease = to_lease blue 0 0 ∷ to_reclaim (λ id. 25000) (λ id. 25000) ∷ []

abbrev attempts_of : Option Task → ℕ
attempts_of none = 0
attempts_of (some t) = t.attempt

fifth_attempt :
    attempts_of (
      get first_id
        (run plain_engine
          (to_register blue (render ∷ []) 1 0 0
            ∷ to_submit render end (pos 0) 0 0
            ∷ (lost_lease ++ (lost_lease ++ (lost_lease ++ (lost_lease ++ lost_lease)))))
          new_orchestrator).tasks)
    ≡ 5
unfolding program
fifth_attempt = refl

-- A worker that registers after `drain` is given a task.
late_worker :
    state_of (
      get first_id
        (run plain_engine
          (to_submit render end (pos 0) 0 0
            ∷ to_drain 1
            ∷ to_register blue (render ∷ []) 1 2 2
            ∷ to_lease blue 3 3
            ∷ [])
          new_orchestrator).tasks)
    ≡ some leased
unfolding program
late_worker = refl
