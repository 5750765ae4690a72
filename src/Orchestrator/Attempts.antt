-- ===== src/Orchestrator/Attempts.antt =====
-- How often a task is attempted, and what its trace tells of it.
use omarchy_hackertyper.Base.{
  ℕ, ◌+◌, ◌≤◌, ◌<◌, Bool, true, List, [], ◌∷◌, ◌++◌, some, if◌then◌else◌, Text, codes, text_eq,
  starts_with, Bool-cases, keep, keep-append, length, length-append, ◌≡◌, refl, ap, ◌∙◌, arith, inl,
  inr,
}
use omarchy_hackertyper.Orchestrator.Calls.{Call, run, run-Steps, new-IsFiled}
use omarchy_hackertyper.Orchestrator.Dict.{get, set, get-set}
use omarchy_hackertyper.Orchestrator.Filing.{is_waiting}
use omarchy_hackertyper.Orchestrator.Machine.{Orchestrator, new_orchestrator}
use omarchy_hackertyper.Orchestrator.Steps.{
  Work, begins, completes, gives_up, Retry, fails, lapses, Step, quiet, submits, takes, works,
  retries, Steps, here, next,
}
use omarchy_hackertyper.Orchestrator.Task.{Task}
use omarchy_hackertyper.Payload.{Engine}

-- The entries of a trace that a lease, and a reclaimed lease, leave.
abbrev pub lease_count : List Text → ℕ
lease_count trace = length (keep (starts_with (codes "lease:")) trace)

abbrev pub reclaim_count : List Text → ℕ
reclaim_count trace = length (keep (text_eq (codes "reclaimed")) trace)

-- A waiting task may be attempted once more at least, whatever was reclaimed set aside.
pub record IsTraced (t : Task) : Type 0 where
  pub counted : t.attempt ≡ lease_count t.trace
  pub attempt_left : is_waiting t.state ≡ true → t.attempt < t.max_attempts + reclaim_count t.trace
  pub limited : t.attempt ≤ t.max_attempts + reclaim_count t.trace

length-keep-snoc :
    (p : Text → Bool) (trace : List Text) (entry : Text)
    → length (keep p (trace ++ entry ∷ [])) ≡ length (keep p trace) + (if p entry then 1 else 0)
length-keep-snoc p trace entry =
    ap length (keep-append p trace (entry ∷ []))
    ∙ length-append (keep p trace) (keep p (entry ∷ []))
    ∙ ap (λ n. length (keep p trace) + n) (last (p entry) refl)
  where
    last : (b : Bool) → p entry ≡ b → length (keep p (entry ∷ [])) ≡ (if p entry then 1 else 0)
    last b h = ground arith

-- The counts of a trace with one entry more.
abbrev Counts : List Text → Text → Type 0
Counts trace entry =
    (lease_count (trace ++ entry ∷ [])
      ≡ lease_count trace + (if starts_with (codes "lease:") entry then 1 else 0))
    × (reclaim_count (trace ++ entry ∷ [])
        ≡ reclaim_count trace + (if text_eq (codes "reclaimed") entry then 1 else 0))

counts : (trace : List Text) (entry : Text) → Counts trace entry
counts trace entry = (
  length-keep-snoc (starts_with (codes "lease:")) trace entry,
  length-keep-snoc (text_eq (codes "reclaimed")) trace entry,
)

Work-IsTraced : {u t : Task} → Work u t → IsTraced u → IsTraced t
Work-IsTraced {u} {t} (begins now h e) v =
    let (a, b) = counts u.trace (codes "run") in
    rw e (record {
      counted = omega (arith, a, v.counted);
      attempt_left = λ x. cc;
      limited = omega (arith, b, v.limited);
    })
Work-IsTraced {u} {t} (completes result now h e) v =
    let (a, b) = counts u.trace (codes "ok") in
    rw e (record {
      counted = omega (arith, a, v.counted);
      attempt_left = λ x. cc;
      limited = omega (arith, b, v.limited);
    })
Work-IsTraced {u} {t} (gives_up reason h l e) v =
    let (a, b) = counts u.trace (codes "dead-letter") in
    rw e (record {
      counted = omega (arith, a, v.counted);
      attempt_left = λ x. cc;
      limited = omega (arith, b, v.limited);
    })

Retry-IsTraced : {u t : Task} → Retry u t → IsTraced u → IsTraced t
Retry-IsTraced {u} {t} (fails reason h l e) v =
    let (a, b) = counts u.trace (codes "retry") in
    rw e (record {
      counted = omega (arith, a, v.counted);
      attempt_left = λ x. omega (arith, b, l);
      limited = omega (arith, b, v.limited);
    })
Retry-IsTraced {u} {t} (lapses h e) v =
    let (a, b) = counts u.trace (codes "reclaimed") in
    rw e (record {
      counted = omega (arith, a, v.counted);
      attempt_left = λ x. omega (arith, b, v.limited);
      limited = omega (arith, b, v.limited);
    })

abbrev AllTraced : List (Text × Task) → Type 0
AllTraced tasks = (id : Text) (t : Task) → get id tasks ≡ some t → IsTraced t

set-AllTraced :
    (id : Text) (t : Task) (tasks : List (Text × Task))
    → IsTraced t
    → AllTraced tasks
    → AllTraced (set id t tasks)
set-AllTraced id t tasks v all other u h = elim (Bool-cases (text_eq id other)) [
  | inl e ↦
      let this : some t ≡ some u = rw (get-set id other t tasks, e) at h in
      let same : t ≡ u = cc in rw (← same) v
  | inr e ↦ all other u (rw (get-set id other t tasks, e) at h)
]

Step-AllTraced :
    {s s' : Orchestrator} {resets : Bool}
    → Step resets s s'
    → AllTraced s.tasks
    → AllTraced s'.tasks
Step-AllTraced (quiet c q t n) all = rw t all
Step-AllTraced {s} (submits kind body priority created q t n _ _ _) all = rw t (
    set-AllTraced _ _ s.tasks
      (record { counted = refl; attempt_left = λ h. omega arith; limited = omega arith }) all)
Step-AllTraced {s} (takes name id rest u worker until h k w q t n _ _ _ _ _) all =
    let v = all id u k in
    let (a, b) = counts u.trace (codes "lease:" ++ worker) in
    rw t (
      set-AllTraced id _ s.tasks
        (record {
          counted = omega (arith, a, v.counted);
          attempt_left = λ x. cc;
          limited = omega (arith, b, v.attempt_left w);
        })
        all)
Step-AllTraced {s} (works id u v k w q t n _ _) all =
    rw t (set-AllTraced id v s.tasks (Work-IsTraced w (all id u k)) all)
Step-AllTraced {s} (retries id u v k r q t n _ _) all =
    rw t (set-AllTraced id v s.tasks (Retry-IsTraced r (all id u k)) all)

Steps-AllTraced :
    {resets : Bool} {s s' : Orchestrator}
    → Steps resets s s'
    → AllTraced s.tasks
    → AllTraced s'.tasks
Steps-AllTraced here all = all
Steps-AllTraced (next r st) all = Step-AllTraced st (Steps-AllTraced r all)

-- After any calls, a task's attempts are the leases in its trace, and there are at most `maxAttempts`
-- of them and one more for each lease that was reclaimed; a task that waits has one left at least.
pub run-IsTraced :
    (e : Engine) (cs : List Call) (id : Text) (t : Task)
    → get id (run e cs new_orchestrator).tasks ≡ some t
    → IsTraced t
unfolding get
run-IsTraced e cs = Steps-AllTraced (run-Steps e cs new_orchestrator new-IsFiled) (λ id t h. cc)
