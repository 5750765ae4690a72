-- ===== src/Orchestrator/Filing.antt =====
-- Which tasks stand in the queues of the orchestrator.
use omarchy_hackertyper.Base.{
  ℕ, ◌+◌, ◌<◌, Bool, true, false, ◌&&◌, List, [], ◌∷◌, ◌++◌, Option, none, some, ◌==◌,
  if◌then◌else◌, Text, text_eq, text_eq_iff, text_eq_refl, Bool-cases, Option-cases, ◌≡◌, refl, sym,
  ap, ◌∙◌, arith, inl, inr,
}
use omarchy_hackertyper.Number.{ℤ}
use omarchy_hackertyper.Orchestrator.Dict.{get, set, get-set}
use omarchy_hackertyper.Orchestrator.Machine.{queue_index, set_queue}
use omarchy_hackertyper.Orchestrator.Queue.{insert, sort, push}
use omarchy_hackertyper.Orchestrator.Task.{
  QueueName, render, index, notify, archive, TaskState, queued, retrying, Task,
}

-- How often an id stands in a queue.
abbrev pub count : Text → List Text → ℕ
count id [] = 0
count id (j ∷ js) = (if text_eq j id then 1 else 0) + count id js

module _ (priority : Text → ℤ) (created_at : Text → ℕ) (id : Text) where
  count-insert :
      (j : Text) (js : List Text) → count id (insert priority created_at j js) ≡ count id (j ∷ js)
  unfolding insert
  count-insert j [] = refl
  count-insert j (k ∷ ks) = ground (arith, count-insert j ks)

  count-sort : (js : List Text) → count id (sort priority created_at js) ≡ count id js
  unfolding sort
  count-sort [] = refl
  count-sort (j ∷ js) = count-insert j (sort priority created_at js) ∙ omega (arith, count-sort js)

  count-append : (js ks : List Text) → count id (js ++ ks) ≡ count id js + count id ks
  count-append [] ks = omega arith
  count-append (j ∷ js) ks = omega (arith, count-append js ks)

  pub count-push :
      (j : Text) (js : List Text)
      → count id (push priority created_at j js) ≡ count id js + (if text_eq j id then 1 else 0)
  unfolding push
  count-push j js = count-sort (js ++ j ∷ []) ∙ omega (arith, count-append js (j ∷ []))

abbrev pub is_waiting : TaskState → Bool
is_waiting queued = true
is_waiting retrying = true
is_waiting _ = false

-- How often a task has to stand in a queue: once in that of its kind, while it waits.
abbrev pub waits : QueueName → Option Task → ℕ
waits name none = 0
waits name (some t) = if queue_index t.kind == queue_index name && is_waiting t.state then 1 else 0

-- The queues hold the waiting tasks, each once and in the queue of its kind, and nothing else.
abbrev pub Filed : (QueueName → List Text) → List (Text × Task) → Type 0
Filed queues tasks =
    (name : QueueName) (id : Text) → count id (queues name) ≡ waits name (get id tasks)

pub queue_index-injective : (a b : QueueName) → (queue_index a == queue_index b) ≡ true → a ≡ b
queue_index-injective render b h = ground arith
queue_index-injective index b h = ground arith
queue_index-injective notify b h = ground arith
queue_index-injective archive b h = ground arith

-- A task waits in one queue only.
waits_elsewhere :
    (o : Option Task) (name other : QueueName)
    → 0 < waits name o
    → (queue_index other == queue_index name) ≡ false
    → waits other o ≡ 0
waits_elsewhere none name other h e = refl
waits_elsewhere (some t) name other h e = ground arith

module _ (queues : QueueName → List Text) (tasks : List (Text × Task)) (filed : Filed queues tasks)
    (id : Text) (t : Task) where
  -- A task that does not wait is put in the place of one that does not wait either.
  pub Filed-set :
      (u : Task)
      → get id tasks ≡ some u
      → is_waiting u.state ≡ false
      → is_waiting t.state ≡ false
      → Filed queues (set id t tasks)
  Filed-set u h a b name j = filed name j ∙ ground (arith, get-set id j t tasks, text_eq_iff id j)

  -- A waiting task is put in the place of one that does not wait, or of none, and in its queue.
  pub Filed-push :
      (priority : Text → ℤ) (created_at : Text → ℕ)
      → ((name : QueueName) → waits name (get id tasks) ≡ 0)
      → is_waiting t.state ≡ true
      → Filed
          (set_queue t.kind (push priority created_at id (queues t.kind)) queues)
          (set id t tasks)
  Filed-push priority created_at h a name j =
      elim (Bool-cases (queue_index name == queue_index t.kind)) [
        | inl e ↦
            let same : name ≡ t.kind = queue_index-injective name t.kind e in
            let pushed = count-push priority created_at j id (queues t.kind) in
            let before : count j (queues t.kind) ≡ waits t.kind (get j tasks) = filed t.kind j in
            rw same
              (ground (arith, pushed, before, h t.kind, get-set id j t tasks, text_eq_iff id j))
        | inr e ↦
            rw e (filed name j ∙ ground (arith, h name, get-set id j t tasks, text_eq_iff id j))
      ]

  -- The first task of a queue is taken from it, and does not wait any longer.
  pub Filed-pop :
      (name : QueueName) (rest : List Text)
      → queues name ≡ id ∷ rest
      → is_waiting t.state ≡ false
      → Filed (set_queue name rest queues) (set id t tasks)
  Filed-pop name rest h a other j = elim (Bool-cases (queue_index other == queue_index name)) [
    | inl e ↦
        let same : other ≡ name = queue_index-injective other name e in
        let before : count j (id ∷ rest) ≡ waits name (get j tasks) =
          ap (count j) (sym h) ∙ filed name j in
        rw same (ground (arith, before, get-set id j t tasks, text_eq_iff id j))
    | inr e ↦
        let front : count id (id ∷ rest) ≡ waits name (get id tasks) =
          ap (count id) (sym h) ∙ filed name id in
        let once : 0 < waits name (get id tasks) = ground (arith, front, text_eq_refl id) in
        let gone : waits other (get id tasks) ≡ 0 =
          waits_elsewhere (get id tasks) name other once e in
        rw e (filed other j ∙ ground (arith, gone, get-set id j t tasks, text_eq_iff id j))
  ]

-- The first task of a queue is known, waits, and belongs there.
pub record IsFirst (tasks : List (Text × Task)) (name : QueueName) (id : Text) : Type 0 where
  pub task : Task
  pub found : get id tasks ≡ some task
  pub waiting : is_waiting task.state ≡ true
  pub placed : task.kind ≡ name

pub Filed-IsFirst :
    (queues : QueueName → List Text) (tasks : List (Text × Task)) (name : QueueName) (id : Text)
    (rest : List Text)
    → Filed queues tasks
    → queues name ≡ id ∷ rest
    → IsFirst tasks name id
Filed-IsFirst queues tasks name id rest filed h =
    let front : count id (id ∷ rest) ≡ waits name (get id tasks) =
      ap (count id) (sym h) ∙ filed name id in
    let once : 0 < waits name (get id tasks) = ground (arith, front, text_eq_refl id) in
    elim (Option-cases (get id tasks)) [
      | inl e ↦ absurd (ground arith)
      | inr (t, e) ↦
          let here : 0 < waits name (some t) = rw e at once in
          record {
            task = t;
            found = e;
            waiting = ground arith;
            placed = queue_index-injective t.kind name (ground arith);
          }
    ]
