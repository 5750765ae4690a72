-- ===== src/Orchestrator/Snapshots.antt =====
-- What `snapshot` tells of the tasks.
use omarchy_hackertyper.Base.{
  ℕ, ◌+◌, Bool, List, [], ◌∷◌, ◌++◌, Text, text_eq, text_eq_iff, length, length-append, Bool-cases,
  ◌≡◌, refl, sym, ap, ◌∙◌, arith, inl, inr,
}
use omarchy_hackertyper.Number.{ℤ}
use omarchy_hackertyper.Orchestrator.Admission.{Snapshot, snapshot, count_states, or_zero}
use omarchy_hackertyper.Orchestrator.Calls.{Call, run, run-Steps, new-IsFiled}
use omarchy_hackertyper.Orchestrator.Dict.{get, set, get-set}
use omarchy_hackertyper.Orchestrator.Filing.{is_waiting}
use omarchy_hackertyper.Orchestrator.Leasing.{lease_patch}
use omarchy_hackertyper.Orchestrator.Machine.{
  Orchestrator, new_orchestrator, set_queue, pending_count, task_id_of, new_task, priority_in,
  created_at_in,
}
use omarchy_hackertyper.Orchestrator.Queue.{insert, sort, push}
use omarchy_hackertyper.Orchestrator.Steps.{
  Step, quiet, submits, takes, works, retries, Steps, here, next,
}
use omarchy_hackertyper.Orchestrator.Steps.Kept.{
  IsFiled, Steps-IsFiled, Work-waiting, Retry-waiting,
}
use omarchy_hackertyper.Orchestrator.Tally.{tally, one_if, tally-set, tally_added}
use omarchy_hackertyper.Orchestrator.Task.{
  QueueName, render, index, notify, archive, TaskState, queued, leased, running, succeeded,
  retrying, failed, Task, state_text,
}
use omarchy_hackertyper.Payload.{Engine}

module _ {ℓ} {A : Type ℓ} (priority : A → ℤ) (created_at : A → ℕ) where
  length-insert : (a : A) (bs : List A) → length (insert priority created_at a bs) ≡ length bs + 1
  unfolding insert
  length-insert a [] = refl
  length-insert a (b ∷ bs) = ground (arith, length-insert a bs)

  length-sort : (as' : List A) → length (sort priority created_at as') ≡ length as'
  unfolding sort
  length-sort [] = refl
  length-sort (a ∷ as') =
      length-insert a (sort priority created_at as') ∙ omega (arith, length-sort as')

  length-push :
      (a : A) (entries : List A) → length (push priority created_at a entries) ≡ length entries + 1
  unfolding push
  length-push a entries = length-sort (entries ++ a ∷ []) ∙ length-append entries (a ∷ [])

-- One queue is replaced by a longer or a shorter one.
pending_with :
    (name : QueueName) (q : List Text) (s s' : Orchestrator)
    → s'.queues ≡ set_queue name q s.queues
    → pending_count s' + length (s.queues name) ≡ pending_count s + length q
unfolding pending_count
pending_with render q s s' h = rw h (omega arith)
pending_with index q s s' h = rw h (omega arith)
pending_with notify q s s' h = rw h (omega arith)
pending_with archive q s s' h = rw h (omega arith)

pending_same : (s s' : Orchestrator) → s'.queues ≡ s.queues → pending_count s' ≡ pending_count s
unfolding pending_count
pending_same s s' h = rw h refl

abbrev waiting_count : List (Text × Task) → ℕ
waiting_count = tally (λ t. is_waiting t.state)

via :
    (s : Orchestrator) (tasks : List (Text × Task))
    → s.tasks ≡ tasks
    → pending_count s ≡ waiting_count tasks
    → pending_count s ≡ waiting_count s.tasks
via s tasks t h = h ∙ ap waiting_count (sym t)

Step-pending_count :
    {s s' : Orchestrator} {resets : Bool}
    → Step resets s s'
    → IsFiled s
    → pending_count s ≡ waiting_count s.tasks
    → pending_count s' ≡ waiting_count s'.tasks
Step-pending_count {s} {s'} (quiet c q t n) f h = via s' _ t (pending_same s s' q ∙ h)
Step-pending_count {s} {s'} (submits kind body priority created q t n _ _ _) f h =
    let id = task_id_of (s.sequence + 1) in
    let longer = pending_with kind _ s s' q in
    let one = length-push (priority_in s'.tasks) (created_at_in s'.tasks) id (s.queues kind) in
    let more =
      tally_added (λ t. is_waiting t.state) id (new_task id kind body priority created) s.tasks
        (f.unused (s.sequence + 1) (omega arith)) in
    via s' _ t (omega (arith, longer, one, more, h))
Step-pending_count {s} {s'} (takes name id rest u worker until x k w q t n _ _ _ _ _) f h =
    let shorter = pending_with name rest s s' q in
    let one : length (s.queues name) ≡ length (id ∷ rest) = ap length x in
    let less = tally-set (λ t. is_waiting t.state) id u (lease_patch worker until u) s.tasks k in
    via s' _ t (omega (arith, shorter, one, (rw w at less), h))
Step-pending_count {s} {s'} (works id u v k w q t n _ _) f h =
    let (before, after) = Work-waiting w in
    let less = tally-set (λ t. is_waiting t.state) id u v s.tasks k in
    via s' _ t (pending_same s s' q ∙ omega (arith, (rw (before, after) at less), h))
Step-pending_count {s} {s'} (retries id u v k r q t n _ _) f h =
    let (before, after, same) = Retry-waiting r in
    let longer = pending_with u.kind _ s s' q in
    let one = length-push (priority_in s'.tasks) (created_at_in s'.tasks) id (s.queues u.kind) in
    let more = tally-set (λ t. is_waiting t.state) id u v s.tasks k in
    via s' _ t (omega (arith, longer, one, (rw (before, after) at more), h))

Steps-pending_count :
    {resets : Bool} {s s' : Orchestrator}
    → Steps resets s s'
    → IsFiled s
    → pending_count s ≡ waiting_count s.tasks
    → pending_count s' ≡ waiting_count s'.tasks
Steps-pending_count here f h = h
Steps-pending_count (next r st) f h =
    Step-pending_count st (Steps-IsFiled r f) (Steps-pending_count r f h)

get-count_states :
    (name : Text) (counts : List (Text × ℕ)) (tasks : List (Text × Task))
    → or_zero (get name (count_states counts tasks))
      ≡ or_zero (get name counts) + tally (λ t. text_eq (state_text t.state) name) tasks
unfolding count_states tally
get-count_states name counts [] = omega arith
get-count_states name counts ((id, t) ∷ tasks) =
    let key = state_text t.state in
    let rest = get-count_states name (set key (or_zero (get key counts) + 1) counts) tasks in
    elim (Bool-cases (text_eq key name)) [
      | inl e ↦
          let same : key ≡ name = (text_eq_iff key name).0 e in
          let counted : or_zero (get name (set key (or_zero (get key counts) + 1) counts))
              ≡ or_zero (get key counts) + 1 =
            rw (get-set key name (or_zero (get key counts) + 1) counts, e) refl in
          rest ∙ rw e (omega (arith, counted, ap (λ k. or_zero (get k counts)) same))
      | inr e ↦
          let counted : or_zero (get name (set key (or_zero (get key counts) + 1) counts))
              ≡ or_zero (get name counts) =
            rw (get-set key name (or_zero (get key counts) + 1) counts, e) refl in
          rest ∙ rw e (omega (arith, counted))
    ]

-- How many tasks the snapshot says are in a state.
abbrev pub in_state : Snapshot → TaskState → ℕ
in_state shot state = or_zero (get (state_text state) shot.states)

abbrev pub same_state : TaskState → TaskState → Bool
same_state a b = text_eq (state_text a) (state_text b)

waiting_count_lem :
    (tasks : List (Text × Task))
    → waiting_count tasks
      ≡ tally (λ t. same_state t.state queued) tasks
        + tally (λ t. same_state t.state retrying) tasks
unfolding tally
waiting_count_lem [] = refl
waiting_count_lem ((id, t) ∷ tasks) =
    let ih = waiting_count_lem tasks in omega (arith, ih, one_state t.state)
  where
    one_state :
        (state : TaskState)
        → one_if (is_waiting state)
          ≡ one_if (same_state state queued) + one_if (same_state state retrying)
    one_state queued = refl
    one_state leased = refl
    one_state running = refl
    one_state succeeded = refl
    one_state retrying = refl
    one_state failed = refl

-- What the snapshot says of some state of the orchestrator.
pub record IsCounted (s : Orchestrator) : Type 0 where
  pub states_counted :
      (state : TaskState)
      → in_state (snapshot s) state ≡ tally (λ t. same_state t.state state) s.tasks
  pub pending_waits :
      (snapshot s).pending ≡ in_state (snapshot s) queued + in_state (snapshot s) retrying

-- After any calls, the snapshot counts the tasks by their states rightly, and the number of entries in
-- the queues, which it counts apart, is that of the tasks that are queued or to be retried.
pub run-IsCounted : (e : Engine) (cs : List Call) → IsCounted (run e cs new_orchestrator)
unfolding snapshot pending_count tally get
run-IsCounted e cs =
    let s = run e cs new_orchestrator in
    let pending =
      Steps-pending_count (run-Steps e cs new_orchestrator new-IsFiled) new-IsFiled refl in
    let counted : (state : TaskState)
        → in_state (snapshot s) state ≡ tally (λ t. same_state t.state state) s.tasks =
      (λ state. omega (arith, get-count_states (state_text state) [] s.tasks)) in
    record {
      states_counted = counted;
      pending_waits =
          pending ∙ omega (arith, waiting_count_lem s.tasks, counted queued, counted retrying);
    }
