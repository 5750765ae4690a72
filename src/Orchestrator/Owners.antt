-- ===== src/Orchestrator/Owners.antt =====
-- Who may begin, complete and fail a task.
use omarchy_hackertyper.Base.{
  ℕ, Bool, true, false, some, leb, Text, text_eq_refl, Option-cases, Bool-cases, ◌≡◌, ◌↔◌, refl,
  arith, inl, inr,
}
use omarchy_hackertyper.Orchestrator.Dict.{get}
use omarchy_hackertyper.Orchestrator.Events.{log, record_event, release}
use omarchy_hackertyper.Orchestrator.Finishing.{complete_patch, fail_patch, complete, fail}
use omarchy_hackertyper.Orchestrator.Machine.{Orchestrator, Outcome, returned, thrown, enqueue}
use omarchy_hackertyper.Orchestrator.Simulation.{
  require-some, require-none, update-some, disowns, owned, owner_lem,
}
use omarchy_hackertyper.Orchestrator.Steps.{is_held}
use omarchy_hackertyper.Orchestrator.Task.{Task}
use omarchy_hackertyper.Payload.{Engine, Fields}

-- The task is in the hands of the worker.
pub record Holds (s : Orchestrator) (id worker : Text) : Type 0 where
  pub task : Task
  pub found : get id s.tasks ≡ some task
  pub by_worker : task.lease_owner ≡ some worker
  pub held : is_held task.state ≡ true

pub holds-disowns :
    (t : Task) (worker : Text)
    → t.lease_owner ≡ some worker
    → is_held t.state ≡ true
    → disowns t worker ≡ false
holds-disowns t worker o h = rw o (ground (arith, text_eq_refl worker))

-- The result of a call that some owner makes.
abbrev pub is_returned : {A : Type 0} → Outcome A × Orchestrator → Bool
is_returned (returned a, s) = true
is_returned (thrown e, s) = false

module _ (e : Engine) (id worker : Text) (s : Orchestrator) where
  complete_iff :
      (result : Fields) (now at : ℕ)
      → (is_returned (complete e id worker result now at s) ≡ true) ↔ Holds s id worker
  unfolding complete record_event log release
  complete_iff result now at = (forth, back)
    where
      forth : is_returned (complete e id worker result now at s) ≡ true → Holds s id worker
      forth r = elim (Option-cases (get id s.tasks)) [
        | inl h ↦ let x : false ≡ true = rw (require-none id s h) at r in cc
        | inr (t, h) ↦ elim (Bool-cases (disowns t worker)) [
          | inl g ↦ let x : false ≡ true = rw (require-some id s t h, g) at r in cc
          | inr g ↦ record {
            task = t;
            found = h;
            by_worker = owner_lem t worker g;
            held = owned t worker g;
          }
        ]
      ]

      back : Holds s id worker → is_returned (complete e id worker result now at s) ≡ true
      back o =
          rw
            (
              require-some id s o.task o.found,
              holds-disowns o.task worker o.by_worker o.held,
              update-some id (complete_patch result now) s o.task o.found,
            )
            refl

  fail_iff :
      (reason : Text) (at : ℕ)
      → (is_returned (fail e id worker reason at s) ≡ true) ↔ Holds s id worker
  unfolding fail record_event log release enqueue
  fail_iff reason at = (forth, back)
    where
      forth : is_returned (fail e id worker reason at s) ≡ true → Holds s id worker
      forth r = elim (Option-cases (get id s.tasks)) [
        | inl h ↦ let x : false ≡ true = rw (require-none id s h) at r in cc
        | inr (t, h) ↦ elim (Bool-cases (disowns t worker)) [
          | inl g ↦ let x : false ≡ true = rw (require-some id s t h, g) at r in cc
          | inr g ↦ record {
            task = t;
            found = h;
            by_worker = owner_lem t worker g;
            held = owned t worker g;
          }
        ]
      ]

      back : Holds s id worker → is_returned (fail e id worker reason at s) ≡ true
      back o = elim (Bool-cases (leb o.task.max_attempts o.task.attempt)) [
        | inl l ↦
            rw
              (
                require-some id s o.task o.found,
                holds-disowns o.task worker o.by_worker o.held,
                l,
                update-some id (fail_patch reason true) s o.task o.found,
              )
              refl
        | inr l ↦
            rw
              (
                require-some id s o.task o.found,
                holds-disowns o.task worker o.by_worker o.held,
                l,
                update-some id (fail_patch reason false) s o.task o.found,
              )
              refl
      ]

  -- `complete` and `fail` return exactly if the worker holds the task, leased or running.
  pub finish_iff :
      (reason : Text) (result : Fields) (now at : ℕ)
      → ((is_returned (complete e id worker result now at s) ≡ true) ↔ Holds s id worker)
        × ((is_returned (fail e id worker reason at s) ≡ true) ↔ Holds s id worker)
  finish_iff reason result now at = (complete_iff result now at, fail_iff reason at)
