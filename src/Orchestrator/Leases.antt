-- ===== src/Orchestrator/Leases.antt =====
-- What a worker is given.
use omarchy_hackertyper.Base.{
  ℕ, ◌+◌, ◌<◌, true, false, List, [], ◌∷◌, ◌++◌, Option, none, some, Text, text_eq, text_eq_iff,
  Bool-cases, all, ◌≡◌, ◌≢◌, ◌⊎◌, refl, sym, ap, ◌∙◌, arith, inl, inr, ==_iff,
}
use omarchy_hackertyper.Lines.{is_empty}
use omarchy_hackertyper.Orchestrator.Calls.{Call, run, run-Steps, new-IsFiled}
use omarchy_hackertyper.Orchestrator.Dict.{get, set}
use omarchy_hackertyper.Orchestrator.Events.{log, record_event, occupy}
use omarchy_hackertyper.Orchestrator.Filing.{count, waits, Filed-IsFirst, is_waiting}
use omarchy_hackertyper.Orchestrator.Leasing.{
  expires, is_free, lease_patch, take_lease, lease_from, lease,
}
use omarchy_hackertyper.Orchestrator.Machine.{
  Orchestrator, new_orchestrator, Outcome, returned, set_queue, queue_index, priority_in,
  created_at_in,
}
use omarchy_hackertyper.Orchestrator.Queue.Order.{goes_ahead, IsSorted}
use omarchy_hackertyper.Orchestrator.Simulation.Leased.{List-cases, dequeue-none, dequeue-some}
use omarchy_hackertyper.Orchestrator.Simulation.{update-some}
use omarchy_hackertyper.Orchestrator.Sorted.{AllRanked, run-AllRanked, all-count}
use omarchy_hackertyper.Orchestrator.Steps.Kept.{IsFiled, Steps-IsFiled}
use omarchy_hackertyper.Orchestrator.Task.{QueueName, Task, Worker, leased}
use omarchy_hackertyper.Payload.{Engine}

-- The task goes ahead of all other waiting tasks of a kind, by its priority and its time of creation.
abbrev pub IsBest : List (Text × Task) → QueueName → Text → Task → Type 0
IsBest tasks name id task =
    (other : Text) (t : Task)
    → get other tasks ≡ some t
    → is_waiting t.state ≡ true
    → t.kind ≡ name
    → other ≢ id
    → goes_ahead (λ u. u.priority) (λ u. u.created_at) task t ≡ true

-- A task that is leased to a worker until some time, and the same task before.
pub record IsLeasedTo (id : Text) (until : ℕ) (u t : Task) : Type 0 where
  pub is_leased : t.state ≡ leased
  pub owner : t.lease_owner ≡ some id
  pub ends : t.lease_until ≡ some until
  pub counted : t.attempt ≡ u.attempt + 1
  pub same_task : (t.task_id ≡ u.task_id) × (t.kind ≡ u.kind) × (t.body ≡ u.body)

-- A lease of the first task of the first queue that has one.
pub record IsGranted (s : Orchestrator) (id : Text) (now : ℕ) (names : List QueueName)
    (result : Outcome (Option Task) × Orchestrator) : Type 0 where
  pub skipped : List QueueName
  pub name : QueueName
  pub others : List QueueName
  pub order : names ≡ skipped ++ name ∷ others
  pub none_before : all (λ q. is_empty (s.queues q)) skipped ≡ true
  pub task_id : Text
  pub task : Task
  pub found : get task_id s.tasks ≡ some task
  pub waited : is_waiting task.state ≡ true
  pub of_kind : task.kind ≡ name
  pub best : IsBest s.tasks name task_id task
  pub given : Task
  pub leases : IsLeasedTo id (now + 25000) task given
  pub gives : result.0 ≡ returned (some given)
  pub keeps : result.1.tasks ≡ set task_id given s.tasks

-- Nothing to be had, and nothing changed.
pub record IsIdle (s : Orchestrator) (names : List QueueName)
    (result : Outcome (Option Task) × Orchestrator) : Type 0 where
  pub all_empty : all (λ q. is_empty (s.queues q)) names ≡ true
  pub unchanged : result ≡ (returned none, s)

first-IsBest :
    (s : Orchestrator) (name : QueueName) (id : Text) (rest : List Text)
    → IsFiled s
    → AllRanked s.queues s.tasks
    → s.queues name ≡ id ∷ rest
    → (task : Task) → get id s.tasks ≡ some task
    → IsBest s.tasks name id task
first-IsBest s name id rest f sorted h task l other t k w m different =
    let whole : IsSorted (priority_in s.tasks) (created_at_in s.tasks) (id ∷ rest) =
      rw h at (sorted name) in
    let here : count other (id ∷ rest) ≡ waits name (get other s.tasks) =
      ap (count other) (sym h) ∙ f.filed name other in
    let once : waits name (get other s.tasks) ≡ 1 =
      rw k (rw (m, w, (==_iff (queue_index name) (queue_index name)).1 refl) refl) in
    let apart : text_eq id other ≡ false = elim (Bool-cases (text_eq id other)) [
      | inl e ↦ absurd (different (sym ((text_eq_iff id other).0 e)))
      | inr e ↦ e
    ] in
    let ahead : goes_ahead (priority_in s.tasks) (created_at_in s.tasks) id other ≡ true =
      all-count (goes_ahead (priority_in s.tasks) (created_at_in s.tasks) id) rest other whole.0
        (ground (arith, here, once, apart)) in
    rw (l, k) at ahead

module _ (e : Engine) (id : Text) (now at : ℕ) where
  granted :
      (s : Orchestrator) (name : QueueName) (names : List QueueName) (task_id : Text)
      (rest : List Text)
      → IsFiled s
      → AllRanked s.queues s.tasks
      → s.queues name ≡ task_id ∷ rest
      → IsGranted s id now
          (name ∷ names)
          (take_lease e id now at task_id (record s { queues = set_queue name rest s.queues }))
  unfolding take_lease occupy record_event log
  granted s name names task_id rest f sorted h =
      let first = Filed-IsFirst s.queues s.tasks name task_id rest f.filed h in
      let s' = record s { queues = set_queue name rest s.queues } in
      let taken = update-some task_id (lease_patch id (expires now)) s' first.task first.found in
      record {
        skipped = [];
        name = name;
        others = names;
        order = refl;
        none_before = refl;
        task_id = task_id;
        task = first.task;
        found = first.found;
        waited = first.waiting;
        of_kind = first.placed;
        best = first-IsBest s name task_id rest f sorted h first.task first.found;
        given = lease_patch id (expires now) first.task;
        leases = record {
          is_leased = refl;
          owner = refl;
          ends = refl;
          counted = refl;
          same_task = (refl, refl, refl);
        };
        gives = rw taken refl;
        keeps = rw taken refl;
      }

  later_granted :
      (s : Orchestrator) (name : QueueName) (names : List QueueName)
      (result : Outcome (Option Task) × Orchestrator)
      → s.queues name ≡ []
      → IsGranted s id now names result
      → IsGranted s id now (name ∷ names) result
  later_granted s name names result h g = record {
    skipped = name ∷ g.skipped;
    name = g.name;
    others = g.others;
    order = ap (◌∷◌ name) g.order;
    none_before = rw (h, g.none_before) refl;
    task_id = g.task_id;
    task = g.task;
    found = g.found;
    waited = g.waited;
    of_kind = g.of_kind;
    best = g.best;
    given = g.given;
    leases = g.leases;
    gives = g.gives;
    keeps = g.keeps;
  }

  lease_from_lem :
      (names : List QueueName) (s : Orchestrator)
      → IsFiled s
      → AllRanked s.queues s.tasks
      → IsGranted s id now names (lease_from e id now at names s)
        ⊎ IsIdle s names (lease_from e id now at names s)
  unfolding lease_from
  lease_from_lem [] s f sorted = inr (record { all_empty = refl; unchanged = refl })
  lease_from_lem (name ∷ names) s f sorted = elim (List-cases (s.queues name)) [
    | inl h ↦ rw (dequeue-none name s h) (elim (lease_from_lem names s f sorted) [
      | inl g ↦ inl (later_granted s name names (lease_from e id now at names s) h g)
      | inr g ↦ inr (record { all_empty = rw (h, g.all_empty) refl; unchanged = g.unchanged })
    ])
    | inr (task_id, rest, h) ↦
        rw (dequeue-some name s task_id rest h) (inl (granted s name names task_id rest f sorted h))
  ]

-- After any calls, a worker that is not draining and has fewer active tasks than its capacity is
-- given a task by `lease` unless all of its queues are empty: in the first queue of its list that has
-- any, a waiting task that no other has to precede, by a higher priority or, with the same, an earlier
-- time of creation; it is now leased to the worker for 25 s, with one attempt more. Where all of its
-- queues are empty, nothing changes.
pub lease_lem :
    (e : Engine) (cs : List Call) (id : Text) (w : Worker) (now at : ℕ)
    → get id (run e cs new_orchestrator).workers ≡ some w
    → w.draining ≡ false
    → w.active < w.capacity
    → IsGranted
        (run e cs new_orchestrator)
        id
        now
        w.queues
        (lease e id now at (run e cs new_orchestrator))
      ⊎ IsIdle (run e cs new_orchestrator) w.queues (lease e id now at (run e cs new_orchestrator))
unfolding lease
lease_lem e cs id w now at h awake room =
    let s = run e cs new_orchestrator in
    let f = Steps-IsFiled (run-Steps e cs new_orchestrator new-IsFiled) new-IsFiled in
    let g : is_free w ≡ true = ground arith in
    rw (h, g) (lease_from_lem e id now at w.queues s f (run-AllRanked e cs))
