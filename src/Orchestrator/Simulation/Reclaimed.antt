-- ===== src/Orchestrator/Simulation/Reclaimed.antt =====
-- `reclaimExpired`: every task is visited, and nothing is thrown.
use omarchy_hackertyper.Base.{
  Bool, ℕ, ◌+◌, true, List, [], ◌∷◌, Option, none, some, Text, codes, Bool-cases, Option-cases, ◌≡◌,
  refl, arith, inl, inr,
}
use omarchy_hackertyper.Orchestrator.Dict.{get, set, keys}
use omarchy_hackertyper.Orchestrator.Events.{
  change_worker, release_worker, text_field, log, record_event, release,
}
use omarchy_hackertyper.Orchestrator.Machine.{
  Orchestrator, Outcome, returned, set_queue, enqueue, priority_in, created_at_in,
}
use omarchy_hackertyper.Orchestrator.Queue.{push}
use omarchy_hackertyper.Orchestrator.Reclaiming.{
  release_owner, owner_or_none, reclaim_patch, is_reclaimable, reclaim, visit, reclaim_from,
  reclaim_expired,
}
use omarchy_hackertyper.Orchestrator.Steps.{
  Released, freed, unnamed, lapses, retries, Steps, here, Steps-trans, is_held,
}
use omarchy_hackertyper.Orchestrator.Task.{Task, Worker}
use omarchy_hackertyper.Payload.{Engine}
use omarchy_hackertyper.Orchestrator.Simulation.{IsSimulated, update-some, moved, one}

-- A method that always returns.
pub record IsTotal {A : Type 0} (resets : Bool) (s : Orchestrator)
    (result : Outcome A × Orchestrator) : Type 0 where
  pub value : A
  pub after : Orchestrator
  pub returns : result ≡ (returned value, after)
  pub reached : Steps resets s after

-- A method that is total is simulated.
pub total-IsSimulated :
    {A : Type 0} {resets : Bool} (s : Orchestrator) (result : Outcome A × Orchestrator)
    → IsTotal resets s result
    → IsSimulated resets s result
total-IsSimulated s result t = rw (t.returns) (moved s t.after t.value t.reached)

pub release_owner_lem :
    (t : Task) (owner : Option Text) (s : Orchestrator)
    → t.lease_owner ≡ owner
    → (workers : List (Text × Worker)) × (release_owner owner s
        ≡ (returned tt, record s { workers = workers }))
      × Released t (reclaim_patch t) s.workers workers
unfolding release
release_owner_lem t none s h = (s.workers, refl, unnamed refl (inl h) refl)
release_owner_lem t (some []) s h = (s.workers, refl, unnamed refl (inr h) refl)
release_owner_lem t (some (c ∷ cs)) s h = (
  change_worker (c ∷ cs) release_worker (get (c ∷ cs) s.workers) s.workers,
  refl,
  freed (c ∷ cs) refl h refl,
)

module _ {resets : Bool} (e : Engine) where
  pub reclaim-IsTotal :
      (id : Text) (t : Task) (at : ℕ) (s : Orchestrator)
      → get id s.tasks ≡ some t
      → is_held t.state ≡ true
      → IsTotal resets s (reclaim e id t at s)
  unfolding reclaim enqueue record_event log
  reclaim-IsTotal id t at s h g =
      let tasks = set id (reclaim_patch t) s.tasks in
      let s1 : Orchestrator = record s {
        tasks = tasks;
        queues =
            set_queue t.kind (push (priority_in tasks) (created_at_in tasks) id (s.queues t.kind))
              s.queues;
      } in
      let (workers, done, crew) = release_owner_lem t t.lease_owner s1 refl in
      let final : Orchestrator =
        (record_event e at (codes "task.reclaimed") (reclaim_patch t)
          (text_field (codes "previousOwner") (owner_or_none t.lease_owner))
          (record s1 { workers = workers })).1 in
      record {
        value = tt;
        after = final;
        returns = rw (update-some id reclaim_patch s t h, done) refl;
        reached = one (retries id t (reclaim_patch t) h (lapses g refl) refl refl refl crew refl);
      }

  pub visit-IsTotal :
      (id : Text) (now at : ℕ) (s : Orchestrator)
      → IsTotal resets s (visit e id now at (get id s.tasks) s)
  visit-IsTotal id now at s = elim (Option-cases (get id s.tasks)) [
    | inl h ↦ rw h (record { value = 0; after = s; returns = refl; reached = here })
    | inr (t, h) ↦ elim (Bool-cases (is_reclaimable t now)) [
      | inl g ↦
          let r = reclaim-IsTotal id t at s h (ground arith) in
          rw (h, g, r.returns)
            (record { value = 1; after = r.after; returns = refl; reached = r.reached })
      | inr g ↦ rw (h, g) (record { value = 0; after = s; returns = refl; reached = here })
    ]
  ]

  pub reclaim_from-IsTotal :
      (now at : Text → ℕ) (ids : List Text) (s : Orchestrator)
      → IsTotal resets s (reclaim_from e now at ids s)
  unfolding reclaim_from
  reclaim_from-IsTotal now at [] s = record { value = 0; after = s; returns = refl; reached = here }
  reclaim_from-IsTotal now at (id ∷ ids) s =
      let v = visit-IsTotal id (now id) (at id) s in
      let r = reclaim_from-IsTotal now at ids v.after in
      record {
        value = v.value + r.value;
        after = r.after;
        returns = rw (v.returns, r.returns) refl;
        reached = Steps-trans v.reached r.reached;
      }

  -- `reclaimExpired` always returns.
  pub reclaim_expired-IsTotal :
      (now at : Text → ℕ) (s : Orchestrator) → IsTotal resets s (reclaim_expired e now at s)
  unfolding reclaim_expired
  reclaim_expired-IsTotal now at s = reclaim_from-IsTotal now at (keys s.tasks) s
