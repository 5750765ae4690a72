-- ===== src/Orchestrator/Capacity/Runs.antt =====
-- How many tasks a worker has in its hands, after any calls.
use omarchy_hackertyper.Base.{
  Bool, true, false, not, List, [], ◌∷◌, some, Text, text_eq, all, &&_split, Bool-cases, ◌≡◌, refl,
  arith, inl, inr,
}
use omarchy_hackertyper.Orchestrator.Admission.{register_worker}
use omarchy_hackertyper.Orchestrator.Calls.{
  Call, to_register, is_reset, run, run-Steps, run-Steps_counting, apply, new-IsFiled,
}
use omarchy_hackertyper.Orchestrator.Capacity.{held_by, IsWithin, AllWithin, Steps-AllWithin}
use omarchy_hackertyper.Orchestrator.Dict.{get, get-set}
use omarchy_hackertyper.Orchestrator.Events.{log}
use omarchy_hackertyper.Orchestrator.Machine.{Orchestrator, new_orchestrator}
use omarchy_hackertyper.Orchestrator.Steps.Kept.{Steps-IsFiled}
use omarchy_hackertyper.Orchestrator.Task.{Worker}
use omarchy_hackertyper.Orchestrator.Tally.{tally}
use omarchy_hackertyper.Payload.{Engine}

abbrev pub is_register : Call → Bool
is_register (to_register id queues capacity now at) = true
is_register _ = false

-- Workers, and no task.
record IsIdle (s : Orchestrator) : Type 0 where
  no_tasks : s.tasks ≡ []
  none_active : (id : Text) (w : Worker) → get id s.workers ≡ some w → w.active ≡ 0

register-IsIdle :
    (e : Engine) (c : Call) (s : Orchestrator)
    → is_register c ≡ true
    → IsIdle s
    → IsIdle (apply e c s).1
unfolding register_worker log
register-IsIdle e (to_register id queues capacity now at) s h i = record {
  no_tasks = i.no_tasks;
  none_active = λ other w k. elim (Bool-cases (text_eq id other)) [
    | inl d ↦ let this = rw (get-set id other _ s.workers, d) at k in ground (arith, this)
    | inr d ↦ i.none_active other w (rw (get-set id other _ s.workers, d) at k)
  ];
}
register-IsIdle e c s h i = cc

run-IsIdle :
    (e : Engine) (cs : List Call) (s : Orchestrator)
    → all is_register cs ≡ true
    → IsIdle s
    → IsIdle (run e cs s)
run-IsIdle e [] s h i = i
run-IsIdle e (c ∷ cs) s h i =
    let (first, rest) = &&_split (is_register c) (all is_register cs) h in
    run-IsIdle e cs (apply e c s).1 rest (register-IsIdle e c s first i)

-- Where the workers are registered first, and no later call registers one or sends a heartbeat, a
-- worker never has more tasks in its hands than its count says, nor is its count above its capacity,
-- however tasks are submitted, leased, begun, completed, failed and reclaimed.
pub run-IsWithin :
    (e : Engine) (registrations cs : List Call) (id : Text) (w : Worker)
    → all is_register registrations ≡ true
    → all (λ c. not (is_reset c)) cs ≡ true
    → get id (run e cs (run e registrations new_orchestrator)).workers ≡ some w
    → IsWithin w (held_by id (run e cs (run e registrations new_orchestrator)).tasks)
unfolding get tally
run-IsWithin e registrations cs id w h k g =
    let s = run e registrations new_orchestrator in
    let f = Steps-IsFiled (run-Steps e registrations new_orchestrator new-IsFiled) new-IsFiled in
    let idle =
      run-IsIdle e registrations new_orchestrator h
        (record { no_tasks = refl; none_active = λ i v x. cc }) in
    let start : AllWithin s.workers s.tasks = λ i v x. record {
      covered = rw (idle.no_tasks) (omega arith);
      limited = rw (idle.none_active i v x) (omega arith);
    } in
    Steps-AllWithin (run-Steps_counting e cs s k f) f start id w g
