-- ===== src/Orchestrator/Simulation/Leased.antt =====
-- `lease`: the first task of a queue is always one that is known and waits.
use omarchy_hackertyper.Base.{
  Bool, true, ℕ, List, [], ◌∷◌, Option, none, some, ◌==◌, Text, Bool-cases, ◌≡◌, ◌⊎◌, refl, ap, inl,
  inr, fun_ext,
}
use omarchy_hackertyper.Orchestrator.Dict.{get}
use omarchy_hackertyper.Orchestrator.Events.{log, record_event, occupy}
use omarchy_hackertyper.Orchestrator.Filing.{Filed-IsFirst, IsFirst, queue_index-injective}
use omarchy_hackertyper.Orchestrator.Leasing.{
  expires, is_free, lease_patch, take_lease, lease_from, lease_by, lease,
}
use omarchy_hackertyper.Orchestrator.Machine.{
  queue_index, Orchestrator, returned, set_queue, dequeue,
}
use omarchy_hackertyper.Orchestrator.Queue.{pop}
use omarchy_hackertyper.Orchestrator.Steps.{takes, here}
use omarchy_hackertyper.Orchestrator.Steps.Kept.{IsFiled}
use omarchy_hackertyper.Orchestrator.Task.{QueueName, Worker}
use omarchy_hackertyper.Payload.{Engine}
use omarchy_hackertyper.Orchestrator.Simulation.{IsSimulated, update-some, moved, one}

pub List-cases : (xs : List Text) → (xs ≡ []) ⊎ ((x : Text) × (rest : List Text) × (xs ≡ x ∷ rest))
List-cases [] = inl refl
List-cases (x ∷ rest) = inr (x, rest, refl)

set_queue_same :
    (name : QueueName) (queues : QueueName → List Text)
    → queues name ≡ []
    → set_queue name [] queues ≡ queues
set_queue_same name queues h = fun_ext λ other.
    elim (Bool-cases (queue_index other == queue_index name)) [
      | inl e ↦ rw (e, queue_index-injective other name e, h) refl
      | inr e ↦ rw e refl
    ]

pub dequeue-none :
    (name : QueueName) (s : Orchestrator) → s.queues name ≡ [] → dequeue name s ≡ (returned none, s)
unfolding dequeue pop
dequeue-none name s h =
    rw (h, dequeue)
      (ap (λ q. (returned none, record s { queues = q })) (set_queue_same name s.queues h))

pub dequeue-some :
    (name : QueueName) (s : Orchestrator) (id : Text) (rest : List Text)
    → s.queues name ≡ id ∷ rest
    → dequeue name s ≡ (returned (some id), record s { queues = set_queue name rest s.queues })
unfolding dequeue pop
dequeue-some name s id rest h = rw (h, dequeue) refl

module _ {resets : Bool} (e : Engine) (worker : Text) (now at : ℕ) where
  taken :
      (s : Orchestrator) (name : QueueName) (id : Text) (rest : List Text)
      → s.queues name ≡ id ∷ rest
      → IsFirst s.tasks name id
      → (w : Worker) → get worker s.workers ≡ some w
      → is_free w ≡ true
      → IsSimulated resets s
          (take_lease e worker now at id (record s { queues = set_queue name rest s.queues }))
  unfolding take_lease occupy record_event log
  taken s name id rest h first w known free =
      let s' = record s { queues = set_queue name rest s.queues } in
      rw (update-some id (lease_patch worker (expires now)) s' first.task first.found) (
        moved s _ _ (
          one (
            takes name id rest first.task worker (expires now) h first.found first.waiting refl refl
              refl w known free (rw known refl) refl)))

  lease_from-IsSimulated :
      (names : List QueueName) (s : Orchestrator)
      → IsFiled s
      → (w : Worker) → get worker s.workers ≡ some w
      → is_free w ≡ true
      → IsSimulated resets s (lease_from e worker now at names s)
  unfolding lease_from
  lease_from-IsSimulated [] s f w known free = moved s s none here
  lease_from-IsSimulated (name ∷ names) s f w known free = elim (List-cases (s.queues name)) [
    | inl h ↦ rw (dequeue-none name s h) (lease_from-IsSimulated names s f w known free)
    | inr (id, rest, h) ↦
        let first = Filed-IsFirst s.queues s.tasks name id rest f.filed h in
        rw (dequeue-some name s id rest h) (taken s name id rest h first w known free)
  ]

  lease_by-IsSimulated :
      (w : Option Worker) (s : Orchestrator)
      → IsFiled s
      → get worker s.workers ≡ w
      → IsSimulated resets s (lease_by e worker now at w s)
  lease_by-IsSimulated none s f known = moved s s none here
  lease_by-IsSimulated (some w) s f known = elim (Bool-cases (is_free w)) [
    | inl g ↦ rw g (lease_from-IsSimulated w.queues s f w known g)
    | inr g ↦ rw g (moved s s none here)
  ]

  pub lease-IsSimulated :
      (s : Orchestrator) → IsFiled s → IsSimulated resets s (lease e worker now at s)
  unfolding lease
  lease-IsSimulated s f = lease_by-IsSimulated (get worker s.workers) s f refl
