-- ===== src/Runner.antt =====
-- src/runner/mod.rs: the state of a run that its slot guards, and what `transition` and `finish` make
-- of it before they write to the store.
--
-- What they do under the lock of the slot is one step; the write that follows is returned, and
-- reaches the store when it does. The slot that `finish` releases in the scheduler after that is in
-- Runner/Queue; the effective limits that it records are not part of this. A revision is an `i64`
-- that grows by 1 from 0.
pub mod Durable
pub mod Queue
pub mod Recovery
pub mod Start
mod Examples
use wyd.Common.{ℕ, ◌+◌, String, Option, none, some, List, [], ◌∷◌, if◌then◌else◌}
use wyd.Logs.{LogState}
use wyd.Run.{RunState, CleanupState, queued, pending, finished, is_terminal}
use wyd.Store.{RunResult, RunStep}
use wyd.Store.Persist.{Write}

pub record RunInner : Type 0 where
  pub state : RunState
  pub cleanup : CleanupState
  pub revision : ℕ
  pub result : Option RunResult
  pub pgid : Option ℕ
  pub detail : Option String

-- The state that `start` gives a new slot.
abbrev pub new_inner : RunInner
new_inner = record {
  state = queued;
  cleanup = pending;
  revision = 0;
  result = none;
  pgid = none;
  detail = none;
}

abbrev pub or_kept {ℓ} : {A : Type ℓ} → Option A → Option A → Option A
or_kept (some a) b = some a
or_kept none b = b

-- The new state, and the write to send; a slot that is finished stays as it is and sends none.
unfoldable pub transition : RunInner → RunStep → ℕ → RunInner × List Write
transition inner step now = if is_terminal inner.state then (inner, []) else (
  record inner {
    state = step.state;
    cleanup = step.cleanup;
    revision = inner.revision + 1;
    detail = or_kept step.detail inner.detail;
  },
  Write.transition (inner.revision + 1) step now ∷ [],
)

unfoldable pub finish : RunInner → RunResult → LogState → RunInner × List Write
finish inner result logs = if is_terminal inner.state then (inner, []) else (
  record inner {
    state = finished;
    cleanup = result.cleanup;
    revision = inner.revision + 1;
    result = some result;
  },
  Write.finish (inner.revision + 1) result logs ∷ [],
)

-- A call of a thread on the slot: of the run's worker, of a cancellation or of the queue's clock.
pub data Call : Type 0 where
  transitions : RunStep → ℕ → Call
  finishes : RunResult → LogState → Call

abbrev pub call : RunInner → Call → RunInner × List Write
call inner (transitions step now) = transition inner step now
call inner (finishes result logs) = finish inner result logs
