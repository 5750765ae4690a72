-- ===== src/Orchestrator/Sweep.antt =====
-- What `reclaimExpired` does to the table.
pub mod Expired
use omarchy_hackertyper.Base.{
  ℕ, Bool, true, false, ◌||◌, List, [], ◌∷◌, Option, none, some, if◌then◌else◌, Text, text_eq,
  text_eq_iff, contains, Option-cases, Bool-cases, ◌≡◌, refl, sym, ap, ◌∙◌, arith, inl, inr,
}
use omarchy_hackertyper.Orchestrator.Dict.{get, set, keys, get-set}
use omarchy_hackertyper.Orchestrator.Events.{log, record_event}
use omarchy_hackertyper.Orchestrator.Machine.{
  Orchestrator, returned, enqueue, set_queue, priority_in, created_at_in,
}
use omarchy_hackertyper.Orchestrator.Queue.{push}
use omarchy_hackertyper.Orchestrator.Reclaiming.{
  is_reclaimable, reclaim_patch, reclaim, visit, reclaim_from, reclaim_expired,
}
use omarchy_hackertyper.Orchestrator.Simulation.Reclaimed.{
  release_owner_lem, reclaim-IsTotal, visit-IsTotal, reclaim_from-IsTotal,
}
use omarchy_hackertyper.Orchestrator.Simulation.{update-some}
use omarchy_hackertyper.Orchestrator.Task.{Task}
use omarchy_hackertyper.Payload.{Engine}

-- What is to become of a task at a time.
abbrev pub swept : ℕ → Option Task → Option Task
swept now none = none
swept now (some t) = some (if is_reclaimable t now then reclaim_patch t else t)

swept-swept : (now : ℕ) (o : Option Task) → swept now (swept now o) ≡ swept now o
swept-swept now none = refl
swept-swept now (some t) = elim (Bool-cases (is_reclaimable t now)) [
  | inl g ↦ rw g refl
  | inr g ↦ rw (g, g) refl
]

get-keys :
    (id : Text) (t : Task) (tasks : List (Text × Task))
    → get id tasks ≡ some t
    → contains (keys tasks) id ≡ true
unfolding get
get-keys id t [] h = cc
get-keys id t ((j, u) ∷ rest) h = elim (Bool-cases (text_eq j id)) [
  | inl e ↦ rw e refl
  | inr e ↦ rw (e, get-keys id t rest (rw e at h)) refl
]

module _ (e : Engine) where
  reclaim_tasks :
      (id : Text) (t : Task) (at : ℕ) (s : Orchestrator)
      → get id s.tasks ≡ some t
      → (reclaim e id t at s).1.tasks ≡ set id (reclaim_patch t) s.tasks
  unfolding reclaim enqueue record_event log
  reclaim_tasks id t at s h =
      let tasks = set id (reclaim_patch t) s.tasks in
      let s1 : Orchestrator = record s {
        tasks = tasks;
        queues =
            set_queue t.kind (push (priority_in tasks) (created_at_in tasks) id (s.queues t.kind))
              s.queues;
      } in
      let (workers, done, crew) = release_owner_lem t t.lease_owner s1 refl in
      rw (update-some id reclaim_patch s t h, done) refl

  get-visit :
      (id other : Text) (now at : ℕ) (s : Orchestrator)
      → get other (visit e id now at (get id s.tasks) s).1.tasks
        ≡ (if text_eq id other then swept now (get other s.tasks) else get other s.tasks)
  get-visit id other now at s = elim (Option-cases (get id s.tasks)) [
    | inl h ↦ rw h (unchanged (text_eq id other) refl h)
    | inr (t, h) ↦ elim (Bool-cases (is_reclaimable t now)) [
      | inl g ↦
          let r = reclaim-IsTotal {resets = true} e id t at s h (ground arith) in
          let after : r.after.tasks ≡ set id (reclaim_patch t) s.tasks =
            ap (λ x. x.1.tasks) (sym r.returns) ∙ reclaim_tasks id t at s h in
          rw (h, g, r.returns, after, get-set id other (reclaim_patch t) s.tasks)
            (patched t h g (text_eq id other) refl)
      | inr g ↦ rw (h, g) (kept t h g (text_eq id other) refl)
    ]
  ]
    where
      unchanged :
          (b : Bool)
          → text_eq id other ≡ b
          → get id s.tasks ≡ none
          → get other s.tasks
            ≡ (if text_eq id other then swept now (get other s.tasks) else get other s.tasks)
      unchanged true b h =
          let same : id ≡ other = (text_eq_iff id other).0 b in rw (b, ← same, h) refl
      unchanged false b h = rw b refl

      patched :
          (t : Task)
          → get id s.tasks ≡ some t
          → is_reclaimable t now ≡ true
          → (b : Bool) → text_eq id other ≡ b
          → (if text_eq id other then some (reclaim_patch t) else get other s.tasks)
            ≡ (if text_eq id other then swept now (get other s.tasks) else get other s.tasks)
      patched t h g true b =
          let same : id ≡ other = (text_eq_iff id other).0 b in rw (b, ← same, h, g) refl
      patched t h g false b = rw b refl

      kept :
          (t : Task)
          → get id s.tasks ≡ some t
          → is_reclaimable t now ≡ false
          → (b : Bool) → text_eq id other ≡ b
          → get other s.tasks
            ≡ (if text_eq id other then swept now (get other s.tasks) else get other s.tasks)
      kept t h g true b =
          let same : id ≡ other = (text_eq_iff id other).0 b in rw (b, ← same, h, g) refl
      kept t h g false b = rw b refl

  get-reclaim_from :
      (now at : Text → ℕ) (ids : List Text) (other : Text) (s : Orchestrator)
      → get other (reclaim_from e now at ids s).1.tasks
        ≡ (if contains ids other then swept (now other) (get other s.tasks) else get other s.tasks)
  unfolding reclaim_from
  get-reclaim_from now at [] other s = refl
  get-reclaim_from now at (id ∷ ids) other s =
      let v = visit-IsTotal {resets = true} e id (now id) (at id) s in
      let r = reclaim_from-IsTotal {resets = true} e now at ids v.after in
      let first : get other v.after.tasks
          ≡ (if text_eq id other then swept (now id) (get other s.tasks) else get other s.tasks) =
        ap (λ x. get other x.1.tasks) (sym v.returns) ∙ get-visit id other (now id) (at id) s in
      let rest : get other r.after.tasks ≡ (
          if contains ids other
          then swept (now other) (get other v.after.tasks)
          else get other v.after.tasks) =
        ap (λ x. get other x.1.tasks) (sym r.returns) ∙ get-reclaim_from now at ids other v.after in
      rw (v.returns, r.returns)
        (rest
          ∙ both (text_eq id other) (contains ids other) refl refl (get other v.after.tasks) first)
    where
      both :
          (a b : Bool)
          → text_eq id other ≡ a
          → contains ids other ≡ b
          → (o : Option Task)
          → o ≡ (if text_eq id other then swept (now id) (get other s.tasks) else get other s.tasks)
          → (if contains ids other then swept (now other) o else o) ≡ (
              if text_eq id other || contains ids other
              then swept (now other) (get other s.tasks)
              else get other s.tasks)
      both true true a c o h =
          let same : id ≡ other = (text_eq_iff id other).0 a in
          let once : o ≡ swept (now id) (get other s.tasks) = rw a at h in
          rw (a, c, once, same) (swept-swept (now other) (get other s.tasks))
      both true false a c o h =
          let same : id ≡ other = (text_eq_iff id other).0 a in
          let once : o ≡ swept (now id) (get other s.tasks) = rw a at h in
          rw (a, c, once, same) refl
      both false true a c o h = let once : o ≡ get other s.tasks = rw a at h in rw (a, c, once) refl
      both false false a c o h =
          let once : o ≡ get other s.tasks = rw a at h in rw (a, c, once) refl

  -- What the table has for a task after the whole loop.
  pub get-reclaim_expired :
      (now at : Text → ℕ) (s : Orchestrator) (id : Text)
      → ((n : ℕ) × ((reclaim_expired e now at s).0 ≡ returned n))
        × (get id (reclaim_expired e now at s).1.tasks ≡ swept (now id) (get id s.tasks))
  unfolding reclaim_expired
  get-reclaim_expired now at s id =
      let r = reclaim_from-IsTotal {resets = true} e now at (keys s.tasks) s in
      (
        (r.value, ap (λ x. x.0) r.returns),
        get-reclaim_from now at (keys s.tasks) id s ∙ all_keys (get id s.tasks) refl,
      )
    where
      all_keys :
          (o : Option Task)
          → get id s.tasks ≡ o
          → (if contains (keys s.tasks) id then swept (now id) (get id s.tasks) else get id s.tasks)
            ≡ swept (now id) (get id s.tasks)
      all_keys none h = rw h (go (contains (keys s.tasks) id))
        where
          go : (b : Bool) → (if b then swept (now id) none else none) ≡ none
          go true = refl
          go false = refl
      all_keys (some t) h = rw (get-keys id t s.tasks h) refl
