-- ===== src/Orchestrator/Steps/Kept.antt =====
-- The queues hold exactly the tasks that wait: what the steps keep.
use omarchy_hackertyper.Base.{
  ℕ, ◌+◌, ◌<◌, Bool, true, false, List, [], ◌∷◌, ◌++◌, none, some, Text, codes, text_eq,
  text_eq_iff, Bool-cases, ◌≡◌, refl, sym, ◌∙◌, arith, inl, inr,
}
use omarchy_hackertyper.Orchestrator.Decimal.{decimal, decimal-injective}
use omarchy_hackertyper.Orchestrator.Dict.{get, set, get-set}
use omarchy_hackertyper.Orchestrator.Filing.{
  Filed, Filed-set, Filed-push, Filed-pop, is_waiting, waits,
}
use omarchy_hackertyper.Orchestrator.Leasing.{lease_patch}
use omarchy_hackertyper.Orchestrator.Machine.{
  Orchestrator, task_id_of, new_task, priority_in, created_at_in,
}
use omarchy_hackertyper.Orchestrator.Task.{QueueName, Task}
use omarchy_hackertyper.Orchestrator.Steps.{
  Work, begins, completes, gives_up, Retry, fails, lapses, Step, quiet, submits, takes, works,
  retries, Steps, here, next,
}

-- The queues hold the waiting tasks, and the ids of the tasks to come are not in use.
pub record IsFiled (s : Orchestrator) : Type 0 where
  pub filed : Filed s.queues s.tasks
  pub unused : (n : ℕ) → s.sequence < n → get (task_id_of n) s.tasks ≡ none

append_cancel : (p a b : Text) → p ++ a ≡ p ++ b → a ≡ b
append_cancel [] a b e = e
append_cancel (x ∷ p) a b e = append_cancel p a b (ground arith)

pub task_id_of-injective : (a b : ℕ) → task_id_of a ≡ task_id_of b → a ≡ b
task_id_of-injective a b e =
    decimal-injective a b (append_cancel (codes "orchestrator-") (decimal a) (decimal b) e)

other_id : (a b : ℕ) → a < b → text_eq (task_id_of a) (task_id_of b) ≡ false
other_id a b l = elim (Bool-cases (text_eq (task_id_of a) (task_id_of b))) [
  | inl e ↦
      let same : a ≡ b =
        task_id_of-injective a b ((text_eq_iff (task_id_of a) (task_id_of b)).0 e) in
      absurd (omega arith)
  | inr e ↦ e
]

-- An id that is not in use is still not in use when a task that is known is replaced.
unused-set :
    (id other : Text) (u t : Task) (tasks : List (Text × Task))
    → get id tasks ≡ some u
    → get other tasks ≡ none
    → get other (set id t tasks) ≡ none
unused-set id other u t tasks h k = elim (Bool-cases (text_eq id other)) [
  | inl e ↦
      let same : id ≡ other = (text_eq_iff id other).0 e in
      let both : none ≡ some u = sym k ∙ rw (← same) h in cc
  | inr e ↦ get-set id other t tasks ∙ rw e k
]

pub Work-waiting :
    {u t : Task} → Work u t → (is_waiting u.state ≡ false) × (is_waiting t.state ≡ false)
Work-waiting (begins now h e) = rw e (ground arith, refl)
Work-waiting (completes result now h e) = rw e (ground arith, refl)
Work-waiting (gives_up reason h l e) = rw e (ground arith, refl)

pub Retry-waiting :
    {u t : Task}
    → Retry u t
    → (is_waiting u.state ≡ false) × (is_waiting t.state ≡ true) × (t.kind ≡ u.kind)
Retry-waiting (fails reason h l e) = rw e (ground arith, refl, refl)
Retry-waiting (lapses h e) = rw e (ground arith, refl, refl)

-- A task that does not wait is in no queue.
no_queue :
    (tasks : List (Text × Task)) (id : Text) (u : Task)
    → get id tasks ≡ some u
    → is_waiting u.state ≡ false
    → (name : QueueName) → waits name (get id tasks) ≡ 0
no_queue tasks id u h w name = rw h (ground arith)

pub Step-IsFiled : {s s' : Orchestrator} {resets : Bool} → Step resets s s' → IsFiled s → IsFiled s'
Step-IsFiled {s} {s'} (quiet c q t n) f = record {
  filed = rw (q, t) f.filed;
  unused = λ m h. rw t (f.unused m (omega (arith, n)));
}
Step-IsFiled {s} {s'} (submits kind body priority created q t n _ _ _) f =
    let id = task_id_of (s.sequence + 1) in
    let task = new_task id kind body priority created in
    let free : get id s.tasks ≡ none = f.unused (s.sequence + 1) (omega arith) in
    record {
      filed =
          rw (q, t)
            (Filed-push s.queues s.tasks f.filed id task (priority_in (set id task s.tasks))
              (created_at_in (set id task s.tasks)) (λ name. rw free refl) refl);
      unused = λ m h. rw t (
          get-set id (task_id_of m) task s.tasks
          ∙ rw (other_id (s.sequence + 1) m (omega (arith, n)), f.unused m (omega (arith, n)))
              refl);
    }
Step-IsFiled {s} {s'} (takes name id rest u worker until h k w q t n _ _ _ _ _) f = record {
  filed =
      rw (q, t)
        (Filed-pop s.queues s.tasks f.filed id (lease_patch worker until u) name rest h refl);
  unused = λ m l. rw t (unused-set id (task_id_of m) u _ s.tasks k (f.unused m (omega (arith, n))));
}
Step-IsFiled {s} {s'} (works id u v k w q t n _ _) f = record {
  filed =
      rw (q, t) (Filed-set s.queues s.tasks f.filed id v u k (Work-waiting w).0 (Work-waiting w).1);
  unused = λ m l. rw t (unused-set id (task_id_of m) u v s.tasks k (f.unused m (omega (arith, n))));
}
Step-IsFiled {s} {s'} (retries id u v k r q t n _ _) f =
    let (busy, waiting, kinds) = Retry-waiting r in
    record {
      filed =
          rw (q, t, ← kinds)
            (Filed-push s.queues s.tasks f.filed id v (priority_in (set id v s.tasks))
              (created_at_in (set id v s.tasks)) (no_queue s.tasks id u k busy) waiting);
      unused =
          λ m l. rw t (unused-set id (task_id_of m) u v s.tasks k (f.unused m (omega (arith, n))));
    }

pub Steps-IsFiled :
    {resets : Bool} {s s' : Orchestrator} → Steps resets s s' → IsFiled s → IsFiled s'
Steps-IsFiled here f = f
Steps-IsFiled (next r st) f = Step-IsFiled st (Steps-IsFiled r f)
