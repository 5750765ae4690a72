-- ===== src/Orchestrator/Finishing.antt =====
-- sources/task-orchestrator.ts: `begin`, `complete` and `fail`.
use omarchy_hackertyper.Base.{
  ℕ, Bool, not, ◌||◌, [], ◌∷◌, ◌++◌, none, some, if◌then◌else◌, leb, Text, codes,
}
use omarchy_hackertyper.Orchestrator.Machine.{
  invalid_lease_transition, M, ◌>>=◌, ◌>>◌, pure, throw_if, enqueue, update, require,
}
use omarchy_hackertyper.Orchestrator.Task.{running, succeeded, retrying, failed, Task, put_field}
use omarchy_hackertyper.Payload.{Engine, text, object, Fields, field}
use omarchy_hackertyper.Orchestrator.Events.{
  text_field, is_owner, is_leased, assert_owner, release, record_event,
}

abbrev pub begin_patch : ℕ → Task → Task
begin_patch now t = record t {
  state = running;
  started_at = some now;
  trace = t.trace ++ codes "run" ∷ [];
}

abbrev pub complete_patch : Fields → ℕ → Task → Task
complete_patch result now t = record t {
  state = succeeded;
  finished_at = some now;
  lease_until = none;
  trace = t.trace ++ codes "ok" ∷ [];
  body = put_field (codes "result") (object result) t.body;
}

abbrev pub fail_patch : Text → Bool → Task → Task
fail_patch reason terminal t = record t {
  state = (if terminal then failed else retrying);
  last_error = some reason;
  lease_until = none;
  trace = t.trace ++ (if terminal then codes "dead-letter" else codes "retry") ∷ [];
}

module _ (e : Engine) where
  unfoldable pub begin : Text → Text → ℕ → ℕ → M Task
  unfolding require update record_event
  begin id worker now at = do
    task ← require id
    throw_if (not (is_owner task.lease_owner worker) || not (is_leased task.state))
        invalid_lease_transition
    updated ← update id (begin_patch now)
    record_event e at (codes "task.started") updated (text_field (codes "worker") worker)
    pure updated

  unfoldable pub complete : Text → Text → Fields → ℕ → ℕ → M (Unit {0})
  unfolding require update release record_event put_field
  complete id worker result now at = do
    task ← require id
    assert_owner task worker
    updated ← update id (complete_patch result now)
    release worker
    record_event e at (codes "task.succeeded") updated (text_field (codes "worker") worker)

  unfoldable pub fail : Text → Text → Text → ℕ → M (Unit {0})
  unfolding require update release enqueue record_event
  fail id worker reason at = do
    task ← require id
    assert_owner task worker
    let terminal = leb task.max_attempts task.attempt
    updated ← update id (fail_patch reason terminal)
    release worker
    if terminal then pure tt else enqueue task.kind id
    record_event e at (if terminal then codes "task.failed" else codes "task.retrying") updated
        (field (codes "worker") (text worker) (text_field (codes "reason") reason))
