-- ===== src/Tests/Orchestrator/Invariants.antt =====
-- sources/task-orchestrator.ts: runs of calls.
use omarchy_hackertyper.Base.{List, [], ◌∷◌, some, codes, ◌≡◌, refl}
use omarchy_hackertyper.Number.{pos}
use omarchy_hackertyper.Orchestrator.Attempts.{IsTraced, run-IsTraced}
use omarchy_hackertyper.Orchestrator.Calls.{
  Call, to_submit, to_register, to_lease, to_complete, apply, run, run-Filed, apply-atomic,
}
use omarchy_hackertyper.Orchestrator.Capacity.Runs.{run-IsWithin}
use omarchy_hackertyper.Orchestrator.Capacity.{held_by, IsWithin}
use omarchy_hackertyper.Orchestrator.Snapshots.{IsCounted, run-IsCounted}
use omarchy_hackertyper.Orchestrator.Dict.{get}
use omarchy_hackertyper.Orchestrator.Filing.{Filed}
use omarchy_hackertyper.Orchestrator.History.{Stays, run-Stays}
use omarchy_hackertyper.Orchestrator.Machine.{new_orchestrator, thrown, not_owner}
use omarchy_hackertyper.Orchestrator.Sorted.{AllSorted, run-AllSorted}
use omarchy_hackertyper.Orchestrator.Task.{render, notify}
use omarchy_hackertyper.Payload.{end}
use omarchy_hackertyper.Tests.Orchestrator.{
  plain_engine, blue, calls, program, second_id, second_task, second_known, blue_worker, more_calls,
}

run-Filed_example :
    Filed
      (run plain_engine calls new_orchestrator).queues
      (run plain_engine calls new_orchestrator).tasks
run-Filed_example = run-Filed plain_engine calls

green_refused :
    (apply plain_engine
      (to_complete second_id (codes "green") end 30 30)
      (run plain_engine calls new_orchestrator)).0
    ≡ thrown not_owner
unfolding program
green_refused = refl

apply-atomic_example :
    (apply plain_engine
      (to_complete second_id (codes "green") end 30 30)
      (run plain_engine calls new_orchestrator)).1
    ≡ run plain_engine calls new_orchestrator
apply-atomic_example =
    apply-atomic plain_engine calls (to_complete second_id (codes "green") end 30 30) not_owner
      green_refused

run-Stays_example :
    Stays second_id second_task
      (run plain_engine more_calls (run plain_engine calls new_orchestrator)).tasks
run-Stays_example = run-Stays plain_engine calls more_calls second_id second_task second_known

run-IsTraced_example : IsTraced second_task
run-IsTraced_example = run-IsTraced plain_engine calls second_id second_task second_known

run-AllSorted_example :
    AllSorted
      (run plain_engine calls new_orchestrator).queues
      (run plain_engine calls new_orchestrator).tasks
run-AllSorted_example = run-AllSorted plain_engine calls

run-IsCounted_example : IsCounted (run plain_engine calls new_orchestrator)
run-IsCounted_example = run-IsCounted plain_engine calls

abbrev registrations : List Call
registrations = to_register blue (notify ∷ render ∷ []) 2 0 0 ∷ []

abbrev work : List Call
work = to_submit render end (pos 1) 10 10 ∷ to_lease blue 20 20 ∷ []

busy_blue :
    get blue (run plain_engine work (run plain_engine registrations new_orchestrator)).workers
    ≡ some blue_worker
unfolding program
busy_blue = refl

run-IsWithin_example :
    IsWithin blue_worker
      (held_by blue (run plain_engine work (run plain_engine registrations new_orchestrator)).tasks)
run-IsWithin_example =
    run-IsWithin plain_engine registrations work blue blue_worker refl refl busy_blue
