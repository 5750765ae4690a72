-- ===== src/Orchestrator/Draining.antt =====
-- What `drain` puts an end to.
use omarchy_hackertyper.Base.{
  ℕ, Bool, true, false, List, [], ◌∷◌, map, none, some, Text, text_eq, Option-cases, Bool-cases,
  ◌≡◌, refl, ◌∙◌, arith, inl, inr,
}
use omarchy_hackertyper.Number.{ℤ}
use omarchy_hackertyper.Orchestrator.Admission.{submit, drain}
use omarchy_hackertyper.Orchestrator.Calls.{Call, run, run-Steps, new-IsFiled}
use omarchy_hackertyper.Orchestrator.Dict.{get}
use omarchy_hackertyper.Orchestrator.Events.{log}
use omarchy_hackertyper.Orchestrator.Leasing.{lease}
use omarchy_hackertyper.Orchestrator.Machine.{
  Orchestrator, new_orchestrator, thrown, is_draining, returned,
}
use omarchy_hackertyper.Orchestrator.Simulation.{drain-IsSimulated}
use omarchy_hackertyper.Orchestrator.Steps.{
  Control, registers, beats, drains, Step, quiet, submits, takes, works, retries, Steps, here, next,
}
use omarchy_hackertyper.Orchestrator.Steps.Kept.{Steps-IsFiled}
use omarchy_hackertyper.Orchestrator.Task.{QueueName, Worker}
use omarchy_hackertyper.Payload.{Engine, Fields}

-- No task is accepted, and none is made.
record IsClosed (s s' : Orchestrator) : Type 0 where
  closed : s'.accepting ≡ false
  same_count : s'.sequence ≡ s.sequence

Control-closed :
    {s s' : Orchestrator} {resets : Bool}
    → Control resets s s'
    → s.accepting ≡ false
    → s'.accepting ≡ false
Control-closed (registers id w z q a _) h = a ∙ h
Control-closed (beats id active now q a _) h = a ∙ h
Control-closed (drains q a) h = a

Step-IsClosed :
    {s s' : Orchestrator} {resets : Bool} → Step resets s s' → s.accepting ≡ false → IsClosed s s'
Step-IsClosed (quiet c q t n) h = record { closed = Control-closed c h; same_count = n }
Step-IsClosed (submits kind body priority created q t n w a b) h = cc
Step-IsClosed (takes name id rest u worker until x k w q t n v g f y a) h = record {
  closed = a ∙ h;
  same_count = n;
}
Step-IsClosed (works id u v k w q t n r a) h = record { closed = a ∙ h; same_count = n }
Step-IsClosed (retries id u v k r q t n y a) h = record { closed = a ∙ h; same_count = n }

Steps-IsClosed :
    {resets : Bool} {s s' : Orchestrator} → Steps resets s s' → s.accepting ≡ false → IsClosed s s'
Steps-IsClosed here h = record { closed = h; same_count = refl }
Steps-IsClosed (next r st) h =
    let before = Steps-IsClosed r h in
    let after = Step-IsClosed st before.closed in
    record { closed = after.closed; same_count = after.same_count ∙ before.same_count }

-- Once an orchestrator has been drained, whatever is called before and after, every submission throws
-- and changes nothing, and no task has been made since.
pub drain-submit :
    (e : Engine) (before after : List Call) (at : ℕ) (kind : QueueName) (body : Fields)
    (priority : ℤ) (created logged : ℕ)
    → (submit e kind body priority created logged
          (run e after (drain e at (run e before new_orchestrator)).1)
        ≡ (thrown is_draining, run e after (drain e at (run e before new_orchestrator)).1))
      × ((run e after (drain e at (run e before new_orchestrator)).1).sequence
          ≡ (run e before new_orchestrator).sequence)
unfolding submit drain log
drain-submit e before after at kind body priority created logged =
    let s = run e before new_orchestrator in
    let f = Steps-IsFiled (run-Steps e before new_orchestrator new-IsFiled) new-IsFiled in
    let drained = (drain e at s).1 in
    let g = Steps-IsFiled (drain-IsSimulated e {resets = true} at s).steps f in
    let closed = Steps-IsClosed (run-Steps e after drained g) refl in
    (rw closed.closed refl, closed.same_count)

get-map_draining :
    (id : Text) (w : Worker) (workers : List (Text × Worker))
    → get id (map (λ (i, v). (i, record v { draining = true })) workers) ≡ some w
    → w.draining ≡ true
unfolding get
get-map_draining id w [] h = cc
get-map_draining id w ((i, v) ∷ rest) h = elim (Bool-cases (text_eq i id)) [
  | inl e ↦ let same : some (record v { draining = true }) ≡ some w = rw e at h in ground arith
  | inr e ↦ get-map_draining id w rest (rw e at h)
]

-- Right after `drain` no worker is given a task, whatever the state was.
pub drain-lease :
    (e : Engine) (s : Orchestrator) (at now logged : ℕ) (id : Text)
    → lease e id now logged (drain e at s).1 ≡ (returned none, (drain e at s).1)
unfolding lease drain log
drain-lease e s at now logged id =
    elim (Option-cases (get id (map (λ (i, v). (i, record v { draining = true })) s.workers))) [
      | inl h ↦ rw h refl
      | inr (w, h) ↦ let d = get-map_draining id w s.workers h in rw (h, d) refl
    ]
