-- ===== src/Orchestrator/Demo.antt =====
-- sources/task-orchestrator.ts: the statements at its end.
use omarchy_hackertyper.Base.{
  Bool, false, ℕ, [], ◌∷◌, Option, none, some, if◌then◌else◌, Text, codes, text_eq,
}
use omarchy_hackertyper.Number.{pos, number}
use omarchy_hackertyper.Orchestrator.Admission.{submit, register_worker}
use omarchy_hackertyper.Orchestrator.Finishing.{begin, complete}
use omarchy_hackertyper.Orchestrator.Leasing.{lease}
use omarchy_hackertyper.Orchestrator.Machine.{M, ◌>>=◌, ◌>>◌, pure}
use omarchy_hackertyper.Orchestrator.Task.{render, index, notify, archive, Task}
use omarchy_hackertyper.Payload.{Engine, text, num, Fields, end, field}

abbrev pub is_same_task : Option Task → Text → Bool
is_same_task none id = false
is_same_task (some t) id = text_eq t.task_id id

abbrev result : Fields
result =
    field (codes "frames") (num (number 12))
      (field (codes "checksum") (text (codes "orchestrator-only")) end)

abbrev document : Fields
document =
    field (codes "document") (text (codes "service-card"))
      (field (codes "format") (text (codes "terminal")) end)

-- All readings of the clocks are taken to be the same.
unfoldable pub demo : Engine → ℕ → M (Unit {0})
unfolding register_worker submit lease begin complete
demo e now = do
  register_worker e (codes "worker-blue") (render ∷ index ∷ []) 3 now now
  register_worker e (codes "worker-green") (notify ∷ archive ∷ []) 2 now now
  id ← submit e render document (pos 8) now now
  leased ← lease e (codes "worker-blue") now now
  let finish =
      begin e id (codes "worker-blue") now now >> complete e id (codes "worker-blue") result now now
  if is_same_task leased id then finish else pure tt
