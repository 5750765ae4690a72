-- ===== src/Orchestrator/Sweep/Expired.antt =====
-- `reclaimExpired`: which tasks it puts up for another try.
use omarchy_hackertyper.Base.{
  ℕ, ◌≤◌, ◌<◌, true, false, none, some, if◌then◌else◌, Text, ◌≡◌, refl, ◌∙◌, arith,
}
use omarchy_hackertyper.Orchestrator.Dict.{get}
use omarchy_hackertyper.Orchestrator.Machine.{Orchestrator, Outcome, returned}
use omarchy_hackertyper.Orchestrator.Reclaiming.{is_reclaimable, reclaim_patch, reclaim_expired}
use omarchy_hackertyper.Orchestrator.Steps.{is_held}
use omarchy_hackertyper.Orchestrator.Sweep.{get-reclaim_expired}
use omarchy_hackertyper.Orchestrator.Task.{retrying, Task}
use omarchy_hackertyper.Payload.{Engine}

-- What a sweep at a time makes of a task.
pub record IsSwept (now : ℕ) (u t : Task) : Type 0 where
  pub overdue :
      (until : ℕ)
      → is_held u.state ≡ true
      → u.lease_until ≡ some until
      → until ≤ now
      → (t.state ≡ retrying)
        × (t.lease_owner ≡ none)
        × (t.lease_until ≡ none)
        × (t.attempt ≡ u.attempt)
        × (t.kind ≡ u.kind)
        × (t.body ≡ u.body)
  pub not_held : is_held u.state ≡ false → t ≡ u
  pub unlimited : u.lease_until ≡ none → t ≡ u
  pub in_time : (until : ℕ) → u.lease_until ≡ some until → now < until → t ≡ u

sweep_one :
    (now : ℕ) (u : Task) → IsSwept now u (if is_reclaimable u now then reclaim_patch u else u)
sweep_one now u = record {
  overdue = λ until h k l.
      let g : is_reclaimable u now ≡ true = rw k (ground arith) in
      rw g (refl, refl, refl, refl, refl, refl);
  not_held = λ h. let g : is_reclaimable u now ≡ false = ground arith in rw g refl;
  unlimited = λ h. let g : is_reclaimable u now ≡ false = rw h (ground arith) in rw g refl;
  in_time = λ until h l. let g : is_reclaimable u now ≡ false = rw h (ground arith) in rw g refl;
}

-- A sweep that returned, and what it made of a task.
pub record IsSweep (result : Outcome ℕ × Orchestrator) (now : ℕ) (id : Text) (u : Task)
    : Type 0 where
  pub reclaimed : ℕ
  pub returns : result.0 ≡ returned reclaimed
  pub task : Task
  pub found : get id result.1.tasks ≡ some task
  pub becomes : IsSwept now u task

-- `reclaimExpired` always returns, and it puts exactly those tasks up for another try that are in the
-- hands of a worker and whose lease has expired by the clock's reading for them: they have no owner and
-- no lease any more, and count no further attempt. Every other task is as it was.
pub reclaim_expired_lem :
    (e : Engine) (now at : Text → ℕ) (s : Orchestrator) (id : Text) (u : Task)
    → get id s.tasks ≡ some u
    → IsSweep (reclaim_expired e now at s) (now id) id u
reclaim_expired_lem e now at s id u h =
    let ((n, r), g) = get-reclaim_expired e now at s id in
    record {
      reclaimed = n;
      returns = r;
      task = if is_reclaimable u (now id) then reclaim_patch u else u;
      found = g ∙ rw h refl;
      becomes = sweep_one (now id) u;
    }
