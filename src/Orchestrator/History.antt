-- ===== src/Orchestrator/History.antt =====
-- What becomes of a task, whatever is called.
use omarchy_hackertyper.Base.{
  ◌+◌, ◌≤◌, Bool, true, false, List, [], ◌∷◌, ◌++◌, none, some, Text, text_eq, text_eq_iff,
  Bool-cases, append-nil, append_assoc, ◌≡◌, refl, sym, ap, ◌∙◌, arith, inl, inr,
}
use omarchy_hackertyper.Orchestrator.Calls.{Call, run, run-Steps, new-IsFiled}
use omarchy_hackertyper.Orchestrator.Dict.{get, set, get-set}
use omarchy_hackertyper.Orchestrator.Machine.{Orchestrator, new_orchestrator, task_id_of}
use omarchy_hackertyper.Orchestrator.Steps.{
  Work, begins, completes, gives_up, Retry, fails, lapses, Step, quiet, submits, takes, works,
  retries, Steps, here, next,
}
use omarchy_hackertyper.Orchestrator.Steps.Kept.{IsFiled, Steps-IsFiled}
use omarchy_hackertyper.Orchestrator.Task.{TaskState, succeeded, failed, Task}
use omarchy_hackertyper.Payload.{Engine}

abbrev pub is_final : TaskState → Bool
is_final succeeded = true
is_final failed = true
is_final _ = false

-- A task, and the same task later on.
pub record Later (u t : Task) : Type 0 where
  pub same_id : t.task_id ≡ u.task_id
  pub same_kind : t.kind ≡ u.kind
  pub same_priority : t.priority ≡ u.priority
  pub same_creation : t.created_at ≡ u.created_at
  pub same_limit : t.max_attempts ≡ u.max_attempts
  pub more_attempts : u.attempt ≤ t.attempt
  pub added : List Text
  pub extends : t.trace ≡ u.trace ++ added
  -- What has succeeded or failed does not change any more.
  pub settled : is_final u.state ≡ true → t ≡ u

Later-refl : (t : Task) → Later t t
Later-refl t = record {
  same_id = refl;
  same_kind = refl;
  same_priority = refl;
  same_creation = refl;
  same_limit = refl;
  more_attempts = omega arith;
  added = [];
  extends = sym (append-nil t.trace);
  settled = λ h. refl;
}

Later-trans : {u v t : Task} → Later u v → Later v t → Later u t
Later-trans {u} {v} {t} a b = record {
  same_id = b.same_id ∙ a.same_id;
  same_kind = b.same_kind ∙ a.same_kind;
  same_priority = b.same_priority ∙ a.same_priority;
  same_creation = b.same_creation ∙ a.same_creation;
  same_limit = b.same_limit ∙ a.same_limit;
  more_attempts = omega (arith, a.more_attempts, b.more_attempts);
  added = a.added ++ b.added;
  extends = b.extends ∙ ap (λ x. x ++ b.added) a.extends ∙ append_assoc u.trace a.added b.added;
  settled = λ h. let e = a.settled h in b.settled (ap (λ x. is_final x.state) e ∙ h) ∙ e;
}

-- A change of a task that is not final, with one entry in its trace.
pub changed :
    (u t : Task) (entry : Text)
    → t.task_id ≡ u.task_id
    → t.kind ≡ u.kind
    → t.priority ≡ u.priority
    → t.created_at ≡ u.created_at
    → t.max_attempts ≡ u.max_attempts
    → u.attempt ≤ t.attempt
    → t.trace ≡ u.trace ++ entry ∷ []
    → is_final u.state ≡ false
    → Later u t
changed u t entry a b c d m l x f = record {
  same_id = a;
  same_kind = b;
  same_priority = c;
  same_creation = d;
  same_limit = m;
  more_attempts = l;
  added = entry ∷ [];
  extends = x;
  settled = λ h. cc;
}

pub Work-Later : {u t : Task} → Work u t → Later u t
Work-Later {u} {t} (begins now h e) =
    rw e (changed u _ _ refl refl refl refl refl (omega arith) refl (ground arith))
Work-Later {u} {t} (completes result now h e) =
    rw e (changed u _ _ refl refl refl refl refl (omega arith) refl (ground arith))
Work-Later {u} {t} (gives_up reason h l e) =
    rw e (changed u _ _ refl refl refl refl refl (omega arith) refl (ground arith))

pub Retry-Later : {u t : Task} → Retry u t → Later u t
Retry-Later {u} {t} (fails reason h l e) =
    rw e (changed u _ _ refl refl refl refl refl (omega arith) refl (ground arith))
Retry-Later {u} {t} (lapses h e) =
    rw e (changed u _ _ refl refl refl refl refl (omega arith) refl (ground arith))

-- A task that is in the table, and what the table has for it later on.
pub record Stays (id : Text) (u : Task) (tasks : List (Text × Task)) : Type 0 where
  pub task : Task
  pub found : get id tasks ≡ some task
  pub later : Later u task

-- The tasks of the table when one of them is replaced by what it becomes.
replaced :
    (id other : Text) (u v t : Task) (tasks : List (Text × Task))
    → get other tasks ≡ some u
    → get id tasks ≡ some v
    → Later v t
    → Stays other u (set id t tasks)
replaced id other u v t tasks h k l = elim (Bool-cases (text_eq id other)) [
  | inl e ↦
      let same : id ≡ other = (text_eq_iff id other).0 e in
      let both : some v ≡ some u = sym k ∙ rw same h in
      let this : v ≡ u = cc in
      record { task = t; found = get-set id other t tasks ∙ rw e refl; later = rw this at l }
  | inr e ↦ record { task = u; found = get-set id other t tasks ∙ rw e h; later = Later-refl u }
]

-- The tasks of the table when one is added.
added_other :
    (id other : Text) (u t : Task) (tasks : List (Text × Task))
    → get other tasks ≡ some u
    → get id tasks ≡ none
    → Stays other u (set id t tasks)
added_other id other u t tasks h k = elim (Bool-cases (text_eq id other)) [
  | inl e ↦
      let same : id ≡ other = (text_eq_iff id other).0 e in
      let both : none ≡ some u = sym k ∙ rw same h in cc
  | inr e ↦ record { task = u; found = get-set id other t tasks ∙ rw e h; later = Later-refl u }
]

Step-Stays :
    {s s' : Orchestrator} {resets : Bool} (id : Text) (u : Task)
    → Step resets s s'
    → IsFiled s
    → get id s.tasks ≡ some u
    → Stays id u s'.tasks
Step-Stays {s} {s'} id u (quiet c q t n) f h = record {
  task = u;
  found = rw t h;
  later = Later-refl u;
}
Step-Stays {s} {s'} id u (submits kind body priority created q t n _ _ _) f h =
    let free : get (task_id_of (s.sequence + 1)) s.tasks ≡ none =
      f.unused (s.sequence + 1) (omega arith) in
    rw t (added_other (task_id_of (s.sequence + 1)) id u _ s.tasks h free)
Step-Stays {s} {s'} id u (takes name other rest v worker until x k w q t n _ _ _ _ _) f h = rw t (
    replaced other id u v _ s.tasks h k
      (changed v _ _ refl refl refl refl refl (omega arith) refl (ground arith)))
Step-Stays {s} {s'} id u (works other v t k w q e n _ _) f h =
    rw e (replaced other id u v t s.tasks h k (Work-Later w))
Step-Stays {s} {s'} id u (retries other v t k r q e n _ _) f h =
    rw e (replaced other id u v t s.tasks h k (Retry-Later r))

Steps-Stays :
    {resets : Bool} {s s' : Orchestrator} (id : Text) (u : Task)
    → Steps resets s s'
    → IsFiled s
    → get id s.tasks ≡ some u
    → Stays id u s'.tasks
Steps-Stays id u here f h = record { task = u; found = h; later = Later-refl u }
Steps-Stays id u (next r st) f h =
    let before = Steps-Stays id u r f h in
    let after = Step-Stays id before.task st (Steps-IsFiled r f) before.found in
    record { task = after.task; found = after.found; later = Later-trans before.later after.later }

-- No task is ever lost: whatever calls follow, a task of the table stays there under its id, with its
-- kind, priority, time of creation and limit, its trace only grows, its attempts are never fewer, and
-- once it has succeeded or failed nothing of it changes any more.
pub run-Stays :
    (e : Engine) (before after : List Call) (id : Text) (u : Task)
    → get id (run e before new_orchestrator).tasks ≡ some u
    → Stays id u (run e after (run e before new_orchestrator)).tasks
run-Stays e before after id u h =
    let f = Steps-IsFiled (run-Steps e before new_orchestrator new-IsFiled) new-IsFiled in
    Steps-Stays id u (run-Steps e after (run e before new_orchestrator) f) f h
