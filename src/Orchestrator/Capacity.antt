-- ===== src/Orchestrator/Capacity.antt =====
-- How many tasks a worker has in its hands.
pub mod Runs
use omarchy_hackertyper.Base.{
  ℕ, zero, suc, ◌+◌, ◌-◌, ◌≤◌, ◌<◌, Bool, true, false, not, ◌&&◌, List, [], ◌∷◌, ◌++◌, map, Option,
  none, some, if◌then◌else◌, leb, Text, text_eq, text_eq_iff, text_eq_refl, all, &&_split,
  Bool-cases, Option-cases, ◌≡◌, ◌⊎◌, refl, sym, ap, ◌∙◌, arith, inl, inr,
}
use omarchy_hackertyper.Orchestrator.Dict.{get, set, get-set}
use omarchy_hackertyper.Orchestrator.Events.{is_owner, change_worker, release_worker}
use omarchy_hackertyper.Orchestrator.Filing.{is_waiting}
use omarchy_hackertyper.Orchestrator.Leasing.{lease_patch, is_free}
use omarchy_hackertyper.Orchestrator.Machine.{Orchestrator, new_orchestrator, task_id_of, new_task}
use omarchy_hackertyper.Orchestrator.Steps.{
  Work, begins, completes, gives_up, Retry, fails, lapses, Released, kept, freed, unnamed, Control,
  registers, beats, drains, Step, quiet, submits, takes, works, retries, Steps, here, next, is_held,
}
use omarchy_hackertyper.Orchestrator.Steps.Kept.{IsFiled, Steps-IsFiled}
use omarchy_hackertyper.Orchestrator.Task.{Task, Worker}
use omarchy_hackertyper.Orchestrator.Tally.{tally, one_if, tally-set, tally_added}
use omarchy_hackertyper.Payload.{Engine}

-- The task is in the hands of the worker.
abbrev pub is_held_by : Text → Task → Bool
is_held_by id t = is_held t.state && is_owner t.lease_owner id

-- How many tasks of the table are.
abbrev pub held_by : Text → List (Text × Task) → ℕ
held_by id = tally (is_held_by id)

held_by-set :
    (id key : Text) (u t : Task) (tasks : List (Text × Task))
    → get key tasks ≡ some u
    → held_by id (set key t tasks) + one_if (is_held_by id u)
      ≡ held_by id tasks + one_if (is_held_by id t)
held_by-set id = tally-set (is_held_by id)

-- A worker's count covers the tasks in its hands and stays within its capacity.
pub record IsWithin (w : Worker) (held : ℕ) : Type 0 where
  pub covered : held ≤ w.active
  pub limited : w.active ≤ w.capacity

abbrev pub AllWithin : List (Text × Worker) → List (Text × Task) → Type 0
AllWithin workers tasks =
    (id : Text) (w : Worker) → get id workers ≡ some w → IsWithin w (held_by id tasks)

fewer-IsWithin : (w : Worker) (m n : ℕ) → m ≤ n → IsWithin w n → IsWithin w m
fewer-IsWithin w m n l h = record { covered = omega (arith, l, h.covered); limited = h.limited }

-- A worker is replaced by what it becomes.
set-AllWithin :
    (key : Text) (v v' : Worker) (workers : List (Text × Worker))
    (tasks tasks' : List (Text × Task))
    → get key workers ≡ some v
    → (IsWithin v (held_by key tasks) → IsWithin v' (held_by key tasks'))
    → ((id : Text) → text_eq key id ≡ false → held_by id tasks' ≤ held_by id tasks)
    → AllWithin workers tasks
    → AllWithin (set key v' workers) tasks'
set-AllWithin key v v' workers tasks tasks' h f l a id w k = elim (Bool-cases (text_eq key id)) [
  | inl e ↦
      let same : key ≡ id = (text_eq_iff key id).0 e in
      let this : some v' ≡ some w = rw (get-set key id v' workers, e) at k in
      let equal : v' ≡ w = cc in rw (← same, ← equal) (f (a key v h))
  | inr e ↦
      fewer-IsWithin w (held_by id tasks') (held_by id tasks) (l id e)
        (a id w (rw (get-set key id v' workers, e) at k))
]

Work-held : {u t : Task} → Work u t → is_held u.state ≡ true
Work-held (begins now h e) = ground arith
Work-held (completes result now h e) = h
Work-held (gives_up reason h l e) = h

Retry-held : {u t : Task} → Retry u t → is_held u.state ≡ true
Retry-held (fails reason h l e) = h
Retry-held (lapses h e) = h

not_held : (id : Text) (t : Task) → is_held t.state ≡ false → is_held_by id t ≡ false
not_held id t h = rw h refl

-- A task leaves the hands of its owner, or stays in them.
Released-AllWithin :
    (u t : Task) (workers workers' : List (Text × Worker)) (tasks tasks' : List (Text × Task))
    → is_held u.state ≡ true
    → Released u t workers workers'
    → ((id : Text)
        → held_by id tasks' + one_if (is_held_by id u)
          ≡ held_by id tasks + one_if (is_held_by id t))
    → AllWithin workers tasks
    → AllWithin workers' tasks'
Released-AllWithin u t workers workers' tasks tasks' h (kept g o w) c a id v k =
    let same : is_held_by id t ≡ is_held_by id u = rw (h, g, o) refl in
    let fewer : held_by id tasks' ≤ held_by id tasks =
      let n = c id in omega (arith, (rw same at n)) in
    fewer-IsWithin v (held_by id tasks') (held_by id tasks) fewer (a id v (rw w at k))
Released-AllWithin u t workers workers' tasks tasks' h (unnamed g o w) c a id v k =
    let n = c id in
    let fewer : held_by id tasks' ≤ held_by id tasks = omega (arith, (rw (not_held id t g) at n)) in
    fewer-IsWithin v (held_by id tasks') (held_by id tasks) fewer (a id v (rw w at k))
Released-AllWithin u t workers workers' tasks tasks' h (freed owner g o w) c a id r k =
    elim (Option-cases (get owner workers)) [
      | inl x ↦
          let here : workers' ≡ workers = w ∙ rw x refl in
          let n = c id in
          fewer-IsWithin r (held_by id tasks') (held_by id tasks)
            (omega (arith, (rw (not_held id t g) at n))) (a id r (rw here at k))
      | inr (v, x) ↦
          let here : workers' ≡ set owner (release_worker v) workers = w ∙ rw x refl in
          let mine : is_held_by owner u ≡ true = rw (h, o) (text_eq_refl owner) in
          let n = c owner in
          let one_less : held_by owner tasks' + 1 ≡ held_by owner tasks + 0 =
            (rw (mine, not_held owner t g) at n) in
          set-AllWithin owner v (release_worker v) workers tasks tasks' x
            (λ i. record {
              covered = omega (arith, one_less, i.covered);
              limited = omega (arith, i.limited);
            })
            (λ j d. let m = c j in omega (arith, (rw (not_held j t g) at m))) a id r (rw here at k)
    ]

get-map :
    (f : Worker → Worker) (id : Text) (w : Worker) (workers : List (Text × Worker))
    → get id (map (λ (i, v). (i, f v)) workers) ≡ some w
    → (v : Worker) × (get id workers ≡ some v) × (f v ≡ w)
unfolding get
get-map f id w [] h = cc
get-map f id w ((i, v) ∷ rest) h = elim (Bool-cases (text_eq i id)) [
  | inl e ↦ let this : some (f v) ≡ some w = rw e at h in (v, rw e refl, cc)
  | inr e ↦ let (u, k, l) = get-map f id w rest (rw e at h) in (u, rw e k, l)
]

Control-AllWithin :
    {s s' : Orchestrator} (tasks : List (Text × Task))
    → Control false s s'
    → AllWithin s.workers tasks
    → AllWithin s'.workers tasks
Control-AllWithin tasks (registers id w z q a r) h j v k = cc
Control-AllWithin tasks (beats id active now q a r) h j v k = cc
Control-AllWithin {s} tasks (drains q a) h j v k =
    let (u, l, m) = get-map (λ x. record x { draining = true }) j v s.workers (rw q at k) in
    let i = h j u l in rw (← m) (record { covered = i.covered; limited = i.limited })

waiting_not_held : (id : Text) (t : Task) → is_waiting t.state ≡ true → is_held_by id t ≡ false
waiting_not_held id t h = ground arith

Step-AllWithin :
    {s s' : Orchestrator}
    → Step false s s'
    → IsFiled s
    → AllWithin s.workers s.tasks
    → AllWithin s'.workers s'.tasks
Step-AllWithin {s} {s'} (quiet c q t n) f a = rw t (Control-AllWithin s.tasks c a)
Step-AllWithin {s} {s'} (submits kind body priority created q t n w _ _) f a =
    let id = task_id_of (s.sequence + 1) in
    rw (t, w)
      (λ j v k.
        let more =
          tally_added (is_held_by j) id (new_task id kind body priority created) s.tasks
            (f.unused (s.sequence + 1) (omega arith)) in
        fewer-IsWithin v _ (held_by j s.tasks) (omega (arith, more)) (a j v k))
Step-AllWithin {s} {s'} (takes name id rest u worker until x k w q t n v known free y _) f a =
    let task = lease_patch worker until u in
    let counted = (λ (j : Text). held_by-set j id u task s.tasks k) in
    rw (t, y)
      (set-AllWithin worker v (record v { active = v.active + 1 }) s.workers s.tasks
        (set id task s.tasks) known
        (λ i.
          let c = counted worker in
          let once : held_by worker (set id task s.tasks) + 0 ≡ held_by worker s.tasks + 1 =
            rw (waiting_not_held worker u w, text_eq_refl worker) at c in
          record { covered = omega (arith, once, i.covered); limited = ground (arith, free) })
        (λ j d. let c = counted j in omega (arith, (rw (waiting_not_held j u w, d) at c))) a)
Step-AllWithin {s} {s'} (works id u v k w q t n r _) f a = rw t (
    Released-AllWithin u v s.workers s'.workers s.tasks (set id v s.tasks) (Work-held w) r
      (λ j. held_by-set j id u v s.tasks k) a)
Step-AllWithin {s} {s'} (retries id u v k w q t n r _) f a = rw t (
    Released-AllWithin u v s.workers s'.workers s.tasks (set id v s.tasks) (Retry-held w) r
      (λ j. held_by-set j id u v s.tasks k) a)

pub Steps-AllWithin :
    {s s' : Orchestrator}
    → Steps false s s'
    → IsFiled s
    → AllWithin s.workers s.tasks
    → AllWithin s'.workers s'.tasks
Steps-AllWithin here f a = a
Steps-AllWithin (next r st) f a = Step-AllWithin st (Steps-IsFiled r f) (Steps-AllWithin r f a)
