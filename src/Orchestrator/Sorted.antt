-- ===== src/Orchestrator/Sorted.antt =====
-- The queues are in order, by the priorities and times of creation that the table has.
use omarchy_hackertyper.Base.{
  Bool, true, ℕ, ◌+◌, ◌<◌, List, [], ◌∷◌, none, some, ◌==◌, Text, text_eq, text_eq_iff,
  text_eq_refl, Bool-cases, all, &&_split, ◌≡◌, refl, ◌∙◌, arith, inl, inr,
}
use omarchy_hackertyper.Number.{ℤ}
use omarchy_hackertyper.Orchestrator.Calls.{Call, run, run-Steps, new-IsFiled}
use omarchy_hackertyper.Orchestrator.Dict.{get, set, get-set}
use omarchy_hackertyper.Orchestrator.Filing.{count, Filed}
use omarchy_hackertyper.Orchestrator.History.{Later, Work-Later, Retry-Later, changed}
use omarchy_hackertyper.Orchestrator.Machine.{
  Orchestrator, new_orchestrator, set_queue, queue_index, priority_in, created_at_in, task_id_of,
}
use omarchy_hackertyper.Orchestrator.Queue.Order.{goes_ahead, IsSorted, push-IsQueued}
use omarchy_hackertyper.Orchestrator.Queue.{push}
use omarchy_hackertyper.Orchestrator.Steps.{
  Step, quiet, submits, takes, works, retries, Steps, here, next,
}
use omarchy_hackertyper.Orchestrator.Steps.Kept.{IsFiled, Steps-IsFiled}
use omarchy_hackertyper.Orchestrator.Task.{QueueName, Task}
use omarchy_hackertyper.Payload.{Engine}

-- Two ways to rank the entries of a queue that do not differ on them.
abbrev Agree : (Text → ℤ) → (Text → ℤ) → (Text → ℕ) → (Text → ℕ) → List Text → Type 0
Agree p p' c c' xs = (x : Text) → 0 < count x xs → (p' x ≡ p x) × (c' x ≡ c x)

module _ (p p' : Text → ℤ) (c c' : Text → ℕ) where
  Agree-head : (x : Text) (xs : List Text) → Agree p p' c c' (x ∷ xs) → (p' x ≡ p x) × (c' x ≡ c x)
  Agree-head x xs h = h x (ground (arith, text_eq_refl x))

  Agree-tail : (x : Text) (xs : List Text) → Agree p p' c c' (x ∷ xs) → Agree p p' c c' xs
  Agree-tail x xs h y l = h y (omega (arith, l))

  goes_ahead-agree :
      (x y : Text)
      → (p' x ≡ p x) × (c' x ≡ c x)
      → (p' y ≡ p y) × (c' y ≡ c y)
      → goes_ahead p' c' x y ≡ goes_ahead p c x y
  goes_ahead-agree x y (a, b) (d, f) = rw (a, b, d, f) refl

  all-Agree :
      (x : Text) (xs : List Text)
      → (p' x ≡ p x) × (c' x ≡ c x)
      → Agree p p' c c' xs
      → all (goes_ahead p' c' x) xs ≡ all (goes_ahead p c x) xs
  all-Agree x [] h a = refl
  all-Agree x (y ∷ ys) h a =
      rw (goes_ahead-agree x y h (Agree-head y ys a), all-Agree x ys h (Agree-tail y ys a)) refl

  IsSorted-Agree : (xs : List Text) → Agree p p' c c' xs → IsSorted p c xs → IsSorted p' c' xs
  IsSorted-Agree [] a s = tt
  IsSorted-Agree (x ∷ xs) a s = (
    all-Agree x xs (Agree-head x xs a) (Agree-tail x xs a) ∙ s.0,
    IsSorted-Agree xs (Agree-tail x xs a) s.1,
  )

-- The queues are in order, by what the code reads through a reference.
abbrev pub AllRanked : (QueueName → List Text) → List (Text × Task) → Type 0
AllRanked queues tasks =
    (name : QueueName) → IsSorted (priority_in tasks) (created_at_in tasks) (queues name)

-- A task that is replaced by what it becomes is ranked as before.
replaced-agree :
    (id x : Text) (u t : Task) (tasks : List (Text × Task))
    → get id tasks ≡ some u
    → Later u t
    → (priority_in (set id t tasks) x ≡ priority_in tasks x)
      × (created_at_in (set id t tasks) x ≡ created_at_in tasks x)
replaced-agree id x u t tasks h l = elim (Bool-cases (text_eq id x)) [
  | inl e ↦
      let same : id ≡ x = (text_eq_iff id x).0 e in
      rw (← same, get-set id id t tasks, text_eq_refl id, h) (l.same_priority, l.same_creation)
  | inr e ↦ rw (get-set id x t tasks, e) (refl, refl)
]

module _ (queues : QueueName → List Text) (tasks : List (Text × Task))
    (sorted : AllRanked queues tasks) (id : Text) (t : Task) where
  set-AllRanked : (u : Task) → get id tasks ≡ some u → Later u t → AllRanked queues (set id t tasks)
  set-AllRanked u h l name =
      IsSorted-Agree (priority_in tasks) (priority_in (set id t tasks)) (created_at_in tasks)
        (created_at_in (set id t tasks)) (queues name) (λ x _. replaced-agree id x u t tasks h l)
        (sorted name)

pop-AllRanked :
    (queues : QueueName → List Text) (tasks : List (Text × Task)) (name : QueueName) (id : Text)
    (rest : List Text)
    → AllRanked queues tasks
    → queues name ≡ id ∷ rest
    → AllRanked (set_queue name rest queues) tasks
pop-AllRanked queues tasks name id rest sorted h other =
    elim (Bool-cases (queue_index other == queue_index name)) [
      | inl e ↦
          let whole : IsSorted (priority_in tasks) (created_at_in tasks) (id ∷ rest) =
            rw h at (sorted name) in
          rw e whole.1
      | inr e ↦ rw e (sorted other)
    ]

push-AllRanked :
    (queues : QueueName → List Text) (tasks : List (Text × Task)) (name : QueueName) (id : Text)
    → AllRanked queues tasks
    → AllRanked
        (set_queue name (push (priority_in tasks) (created_at_in tasks) id (queues name)) queues)
        tasks
push-AllRanked queues tasks name id sorted other =
    elim (Bool-cases (queue_index other == queue_index name)) [
      | inl e ↦
          rw e (push-IsQueued (priority_in tasks) (created_at_in tasks) id (queues name)).in_order
      | inr e ↦ rw e (sorted other)
    ]

-- A new task stands in no queue yet, so that it changes the rank of no entry.
new-AllRanked :
    (queues : QueueName → List Text) (tasks : List (Text × Task)) (id : Text) (t : Task)
    → Filed queues tasks
    → get id tasks ≡ none
    → AllRanked queues tasks
    → AllRanked queues (set id t tasks)
new-AllRanked queues tasks id t filed free sorted name =
    IsSorted-Agree (priority_in tasks) (priority_in (set id t tasks)) (created_at_in tasks)
      (created_at_in (set id t tasks)) (queues name)
      (λ x l. elim (Bool-cases (text_eq id x)) [
        | inl e ↦
            let same : id ≡ x = (text_eq_iff id x).0 e in
            let empty : count x (queues name) ≡ 0 = filed name x ∙ rw (← same, free) refl in
            absurd (omega arith)
        | inr e ↦ rw (get-set id x t tasks, e) (refl, refl)
      ])
      (sorted name)

Step-AllRanked :
    {s s' : Orchestrator} {resets : Bool}
    → Step resets s s'
    → IsFiled s
    → AllRanked s.queues s.tasks
    → AllRanked s'.queues s'.tasks
Step-AllRanked {s} {s'} (quiet c q t n) f a = rw (q, t) a
Step-AllRanked {s} {s'} (submits kind body priority created q t n _ _ _) f a =
    let id = task_id_of (s.sequence + 1) in
    rw (q, t)
      (push-AllRanked s.queues _ kind id
        (new-AllRanked s.queues s.tasks id _ f.filed (f.unused (s.sequence + 1) (omega arith)) a))
Step-AllRanked {s} {s'} (takes name id rest u worker until h k w q t n _ _ _ _ _) f a =
    rw (q, t)
      (pop-AllRanked s.queues _ name id rest
        (set-AllRanked s.queues s.tasks a id _ u k
          (changed u _ _ refl refl refl refl refl (omega arith) refl (ground arith)))
        h)
Step-AllRanked {s} {s'} (works id u v k w q t n _ _) f a =
    rw (q, t) (set-AllRanked s.queues s.tasks a id v u k (Work-Later w))
Step-AllRanked {s} {s'} (retries id u v k r q t n _ _) f a =
    rw (q, t)
      (push-AllRanked s.queues _ u.kind id
        (set-AllRanked s.queues s.tasks a id v u k (Retry-Later r)))

pub Steps-AllRanked :
    {resets : Bool} {s s' : Orchestrator}
    → Steps resets s s'
    → IsFiled s
    → AllRanked s.queues s.tasks
    → AllRanked s'.queues s'.tasks
Steps-AllRanked here f a = a
Steps-AllRanked (next r st) f a = Step-AllRanked st (Steps-IsFiled r f) (Steps-AllRanked r f a)

pub run-AllRanked :
    (e : Engine) (cs : List Call)
    → AllRanked (run e cs new_orchestrator).queues (run e cs new_orchestrator).tasks
run-AllRanked e cs =
    Steps-AllRanked (run-Steps e cs new_orchestrator new-IsFiled) new-IsFiled (λ name. tt)

pub all-count :
    (p : Text → Bool) (xs : List Text) (x : Text) → all p xs ≡ true → 0 < count x xs → p x ≡ true
all-count p [] x h l = absurd (omega arith)
all-count p (y ∷ ys) x h l =
    let (first, rest) = &&_split (p y) (all p ys) h in
    elim (Bool-cases (text_eq y x)) [
      | inl e ↦ let same : y ≡ x = (text_eq_iff y x).0 e in rw (← same) first
      | inr e ↦ all-count p ys x rest (ground arith)
    ]

-- The task of each entry goes ahead of the tasks of all that stand behind it.
abbrev InOrder : List (Text × Task) → List Text → Type 0
InOrder tasks [] = Unit
InOrder tasks (id ∷ ids) =
    ((other : Text) (t u : Task)
      → 0 < count other ids
      → get id tasks ≡ some t
      → get other tasks ≡ some u
      → goes_ahead (λ v. v.priority) (λ v. v.created_at) t u ≡ true)
    × InOrder tasks ids

abbrev pub AllSorted : (QueueName → List Text) → List (Text × Task) → Type 0
AllSorted queues tasks = (name : QueueName) → InOrder tasks (queues name)

ranked-InOrder :
    (tasks : List (Text × Task)) (ids : List Text)
    → IsSorted (priority_in tasks) (created_at_in tasks) ids
    → InOrder tasks ids
ranked-InOrder tasks [] s = tt
ranked-InOrder tasks (id ∷ ids) s = (
  λ other t u l h k.
      let ahead : goes_ahead (priority_in tasks) (created_at_in tasks) id other ≡ true =
        all-count (goes_ahead (priority_in tasks) (created_at_in tasks) id) ids other s.0 l in
      rw (h, k) at ahead,
  ranked-InOrder tasks ids s.1,
)

-- After any calls, in every queue the task of each entry has a higher priority than that of every one
-- behind it, or the same priority and no later time of creation.
pub run-AllSorted :
    (e : Engine) (cs : List Call)
    → AllSorted (run e cs new_orchestrator).queues (run e cs new_orchestrator).tasks
run-AllSorted e cs name =
    let s = run e cs new_orchestrator in
    ranked-InOrder s.tasks (s.queues name) (run-AllRanked e cs name)
