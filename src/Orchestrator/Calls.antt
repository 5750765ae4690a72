-- ===== src/Orchestrator/Calls.antt =====
-- Any sequence of calls of the orchestrator's methods.
use omarchy_hackertyper.Base.{
  ℕ, Bool, true, false, not, all, &&_split, arith, List, [], ◌∷◌, Text, ◌≡◌, refl,
}
use omarchy_hackertyper.Number.{ℤ}
use omarchy_hackertyper.Orchestrator.Admission.{submit, register_worker, heartbeat, drain}
use omarchy_hackertyper.Orchestrator.Dict.{get}
use omarchy_hackertyper.Orchestrator.Filing.{Filed}
use omarchy_hackertyper.Orchestrator.Finishing.{begin, complete, fail}
use omarchy_hackertyper.Orchestrator.Leasing.{lease}
use omarchy_hackertyper.Orchestrator.Machine.{
  Orchestrator, new_orchestrator, Outcome, returned, thrown, Error, M,
}
use omarchy_hackertyper.Orchestrator.Reclaiming.{reclaim_expired}
use omarchy_hackertyper.Orchestrator.Simulation.Leased.{lease-IsSimulated}
use omarchy_hackertyper.Orchestrator.Simulation.Reclaimed.{
  reclaim_expired-IsTotal, total-IsSimulated,
}
use omarchy_hackertyper.Orchestrator.Simulation.{
  IsSimulated, begin-IsSimulated, complete-IsSimulated, fail-IsSimulated, submit-IsSimulated,
  register_worker-IsSimulated, heartbeat-IsSimulated, drain-IsSimulated,
}
use omarchy_hackertyper.Orchestrator.Steps.{Steps, here, Steps-trans}
use omarchy_hackertyper.Orchestrator.Steps.Kept.{IsFiled, Steps-IsFiled}
use omarchy_hackertyper.Orchestrator.Task.{QueueName}
use omarchy_hackertyper.Payload.{Engine, Fields}

-- A call, with the readings of the clocks.
pub data Call : Type 0 where
  to_submit : QueueName → Fields → ℤ → ℕ → ℕ → Call
  to_register : Text → List QueueName → ℕ → ℕ → ℕ → Call
  to_heartbeat : Text → ℤ → ℕ → Call
  to_lease : Text → ℕ → ℕ → Call
  to_begin : Text → Text → ℕ → ℕ → Call
  to_complete : Text → Text → Fields → ℕ → ℕ → Call
  to_fail : Text → Text → Text → ℕ → Call
  to_reclaim : (Text → ℕ) → (Text → ℕ) → Call
  to_drain : ℕ → Call

-- The calls that set the count of a worker's tasks.
abbrev pub is_reset : Call → Bool
is_reset (to_register id queues capacity now at) = true
is_reset (to_heartbeat id active now) = true
is_reset _ = false

-- Without the value that is returned.
abbrev pub outcome_of : {A : Type 0} → Outcome A × Orchestrator → Outcome (Unit {0}) × Orchestrator
outcome_of (returned a, s) = (returned tt, s)
outcome_of (thrown e, s) = (thrown e, s)

module _ (e : Engine) where
  abbrev pub apply : Call → M (Unit {0})
  apply (to_submit kind body priority created at) s =
      outcome_of (submit e kind body priority created at s)
  apply (to_register id queues capacity now at) s =
      outcome_of (register_worker e id queues capacity now at s)
  apply (to_heartbeat id active now) s = outcome_of (heartbeat id active now s)
  apply (to_lease id now at) s = outcome_of (lease e id now at s)
  apply (to_begin id worker now at) s = outcome_of (begin e id worker now at s)
  apply (to_complete id worker result now at) s = outcome_of (complete e id worker result now at s)
  apply (to_fail id worker reason at) s = outcome_of (fail e id worker reason at s)
  apply (to_reclaim now at) s = outcome_of (reclaim_expired e now at s)
  apply (to_drain at) s = outcome_of (drain e at s)

  -- The state after some calls; a call that throws does not stop the next.
  abbrev pub run : List Call → Orchestrator → Orchestrator
  run [] s = s
  run (c ∷ cs) s = run cs (apply c s).1

outcome_of-IsSimulated :
    {A : Type 0} {resets : Bool} (s : Orchestrator) (result : Outcome A × Orchestrator)
    → IsSimulated resets s result
    → IsSimulated resets s (outcome_of result)
outcome_of-IsSimulated s (returned a, s') h = record { steps = h.steps; atomic = λ error x. cc }
outcome_of-IsSimulated s (thrown e, s') h = record {
  steps = h.steps;
  atomic = λ error x. h.atomic e refl;
}

pub new-IsFiled : IsFiled new_orchestrator
unfolding get
new-IsFiled = record { filed = λ name id. refl; unused = λ n h. refl }

module _ (e : Engine) where
  pub apply-IsSimulated :
      (resets : Bool) (c : Call) (s : Orchestrator)
      → (is_reset c ≡ true → resets ≡ true)
      → IsFiled s
      → IsSimulated resets s (apply e c s)
  apply-IsSimulated resets (to_submit kind body priority created at) s h f =
      outcome_of-IsSimulated s _ (submit-IsSimulated e kind body priority created at s)
  apply-IsSimulated resets (to_register id queues capacity now at) s h f =
      rw (h refl)
        (outcome_of-IsSimulated s _ (register_worker-IsSimulated e id queues capacity now at s))
  apply-IsSimulated resets (to_heartbeat id active now) s h f =
      rw (h refl) (outcome_of-IsSimulated s _ (heartbeat-IsSimulated id active now s))
  apply-IsSimulated resets (to_lease id now at) s h f =
      outcome_of-IsSimulated s _ (lease-IsSimulated e id now at s f)
  apply-IsSimulated resets (to_begin id worker now at) s h f =
      outcome_of-IsSimulated s _ (begin-IsSimulated e id worker now at s)
  apply-IsSimulated resets (to_complete id worker result now at) s h f =
      outcome_of-IsSimulated s _ (complete-IsSimulated e id worker result now at s)
  apply-IsSimulated resets (to_fail id worker reason at) s h f =
      outcome_of-IsSimulated s _ (fail-IsSimulated e id worker reason at s)
  apply-IsSimulated resets (to_reclaim now at) s h f =
      outcome_of-IsSimulated s _ (total-IsSimulated s _ (reclaim_expired-IsTotal e now at s))
  apply-IsSimulated resets (to_drain at) s h f =
      outcome_of-IsSimulated s _ (drain-IsSimulated e at s)

  pub run-Steps : (cs : List Call) (s : Orchestrator) → IsFiled s → Steps true s (run e cs s)
  run-Steps [] s f = here
  run-Steps (c ∷ cs) s f =
      let st = (apply-IsSimulated true c s (λ r. refl) f).steps in
      Steps-trans st (run-Steps cs (apply e c s).1 (Steps-IsFiled st f))

  -- Calls that set no count.
  pub run-Steps_counting :
      (cs : List Call) (s : Orchestrator)
      → all (λ c. not (is_reset c)) cs ≡ true
      → IsFiled s
      → Steps false s (run e cs s)
  run-Steps_counting [] s h f = here
  run-Steps_counting (c ∷ cs) s h f =
      let (first, rest) = &&_split (not (is_reset c)) (all (λ c. not (is_reset c)) cs) h in
      let st = (apply-IsSimulated false c s (λ r. ground arith) f).steps in
      Steps-trans st (run-Steps_counting cs (apply e c s).1 rest (Steps-IsFiled st f))

  -- After any calls of a new orchestrator, in any order, every queue holds the tasks of its kind that
  -- are queued or to be retried, each exactly once, and nothing else.
  pub run-Filed :
      (cs : List Call) → Filed (run e cs new_orchestrator).queues (run e cs new_orchestrator).tasks
  run-Filed cs = (Steps-IsFiled (run-Steps cs new_orchestrator new-IsFiled) new-IsFiled).filed

  -- Whatever calls came before, a call that throws leaves the whole state as it was.
  pub apply-atomic :
      (cs : List Call) (c : Call) (error : Error)
      → (apply e c (run e cs new_orchestrator)).0 ≡ thrown error
      → (apply e c (run e cs new_orchestrator)).1 ≡ run e cs new_orchestrator
  apply-atomic cs c error h =
      let f = Steps-IsFiled (run-Steps cs new_orchestrator new-IsFiled) new-IsFiled in
      (apply-IsSimulated true c (run e cs new_orchestrator) (λ r. refl) f).atomic error h
