-- ===== src/Tests/Orchestrator/Methods.antt =====
-- sources/task-orchestrator.ts: single methods.
use omarchy_hackertyper.Base.{arith, ℕ, ◌+◌, true, [], ◌∷◌, codes, ◌≡◌, ◌⊎◌, ◌↔◌, refl}
use omarchy_hackertyper.Number.{pos, negsuc}
use omarchy_hackertyper.Orchestrator.Admission.{submit, drain}
use omarchy_hackertyper.Orchestrator.Calls.{run}
use omarchy_hackertyper.Orchestrator.Draining.{drain-submit}
use omarchy_hackertyper.Orchestrator.Finished.{IsCompleted, IsFailed, finish_lem}
use omarchy_hackertyper.Orchestrator.Finishing.{complete, fail}
use omarchy_hackertyper.Orchestrator.Leases.{IsGranted, IsIdle, lease_lem}
use omarchy_hackertyper.Orchestrator.Leasing.{lease}
use omarchy_hackertyper.Orchestrator.Machine.{new_orchestrator, thrown, is_draining, task_id_of}
use omarchy_hackertyper.Orchestrator.Owners.{Holds, finish_iff, is_returned}
use omarchy_hackertyper.Orchestrator.Queue.Order.{IsQueued, push-IsQueued}
use omarchy_hackertyper.Orchestrator.Queue.{push}
use omarchy_hackertyper.Orchestrator.Reclaiming.{reclaim_expired}
use omarchy_hackertyper.Orchestrator.Shards.{IsSubmitted, submit_lem}
use omarchy_hackertyper.Orchestrator.Sweep.Expired.{IsSweep, reclaim_expired_lem}
use omarchy_hackertyper.Orchestrator.Task.{render, index}
use omarchy_hackertyper.Payload.{end}
use omarchy_hackertyper.Tests.Orchestrator.{
  plain_engine, blue, calls, state, program, second_id, second_task, second_known, blue_worker,
  blue_known, more_calls,
}

lease_lem_example :
    IsGranted
      (run plain_engine calls new_orchestrator)
      blue
      40
      blue_worker.queues
      (lease plain_engine blue 40 41 (run plain_engine calls new_orchestrator))
    ⊎ IsIdle
        (run plain_engine calls new_orchestrator)
        blue_worker.queues
        (lease plain_engine blue 40 41 (run plain_engine calls new_orchestrator))
lease_lem_example =
    lease_lem plain_engine calls blue blue_worker 40 41 blue_known refl (omega arith)

-- Entries of a queue as their priorities; they were made in the order of a list of times.
push-IsQueued_example :
    IsQueued
      (λ (n : ℕ). pos n)
      (λ n. 0)
      4
      (7 ∷ 4 ∷ 2 ∷ [])
      (push (λ n. pos n) (λ n. 0) 4 (7 ∷ 4 ∷ 2 ∷ []))
push-IsQueued_example = push-IsQueued (λ n. pos n) (λ n. 0) 4 (7 ∷ 4 ∷ 2 ∷ [])

reclaim_expired_lem_example :
    IsSweep
      (reclaim_expired plain_engine (λ id. 25020) (λ id. 25021) state)
      25020
      second_id
      second_task
reclaim_expired_lem_example =
    reclaim_expired_lem plain_engine (λ id. 25020) (λ id. 25021) state second_id second_task
      second_known

finish_iff_example :
    ((is_returned (complete plain_engine second_id blue end 30 31 state) ≡ true)
      ↔ Holds state second_id blue)
    × ((is_returned (fail plain_engine second_id blue (codes "lost") 31 state) ≡ true)
        ↔ Holds state second_id blue)
finish_iff_example = finish_iff plain_engine second_id blue state (codes "lost") end 30 31

abbrev held_second : Holds state second_id blue
held_second = record { task = second_task; found = second_known; by_worker = refl; held = refl }

finish_lem_example :
    IsCompleted state
      (complete plain_engine second_id blue end 30 31 state).1
      second_id
      blue
      second_task
      end
      30
    × IsFailed state
        (fail plain_engine second_id blue (codes "lost") 31 state).1
        second_id
        blue
        (codes "lost")
        second_task
finish_lem_example =
    finish_lem plain_engine state second_id blue (codes "lost") end 30 31 held_second

drain-submit_example :
    (submit plain_engine render end (pos 0) 60 60 (
        run plain_engine more_calls
          (drain plain_engine 50 (run plain_engine calls new_orchestrator)).1)
      ≡ (
        thrown is_draining,
        run plain_engine more_calls
            (drain plain_engine 50 (run plain_engine calls new_orchestrator)).1,
      ))
    × ((run plain_engine more_calls
          (drain plain_engine 50 (run plain_engine calls new_orchestrator)).1).sequence
        ≡ (run plain_engine calls new_orchestrator).sequence)
drain-submit_example = drain-submit plain_engine calls more_calls 50 render end (pos 0) 60 60

still_accepting : (run plain_engine calls new_orchestrator).accepting ≡ true
unfolding program
still_accepting = refl

submit_lem_example :
    IsSubmitted plain_engine
      (run plain_engine calls new_orchestrator)
      index
      end
      (negsuc 1)
      70
      71
      (task_id_of ((run plain_engine calls new_orchestrator).sequence + 1))
submit_lem_example = submit_lem plain_engine calls index end (negsuc 1) 70 71 still_accepting
