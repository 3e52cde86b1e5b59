-- ===== src/Runner/Queue.antt =====
-- src/runner/mod.rs: how the registry of slots and the scheduler act together when a run ends, when
-- one is cancelled or all are, at each turn of the clock of the queue, and in what a worker does.
--
-- Each call is one step. The registry is a list of slots, at most one of each id; `spawned` has the
-- runs whose worker was started, in order. What `finish` records of effective limits and of limit
-- events, the views that are returned, and the slots that `cancel` rebuilds from the store, which
-- nothing else sees, are left out.
pub mod Ends
use wyd.Common.{
  ℕ, Bool, true, false, not, ◌&&◌, Option, none, some, List, [], ◌∷◌, ◌++◌, ◌==◌, if◌then◌else◌,
  map, retain, find?, any, update_where, String,
}
use wyd.Logs.{LogState}
use wyd.Run.{RunState, RunOutcome, CleanupState, complete, cancelled, timed_out, is_terminal}
use wyd.Scheduler.{Scheduler, RunId, Duration, release, cancel_queued, expire}
use wyd.Store.{RunResult, RunStep}
use wyd.Store.Persist.{Write}
use wyd.Runner.{RunInner}
use wyd.Runner

pub record RunSlot : Type 0 where
  pub id : RunId
  pub inner : RunInner
  pub cancel : Bool
  pub logs : LogState

pub record Supervisor : Type 0 where
  pub registry : List RunSlot
  pub scheduler : Scheduler
  pub spawned : List RunId
  pub writes : List (RunId × Write)

abbrev pub is_registered : RunId → List RunSlot → Bool
is_registered id slots = any (λ s. s.id == id) slots

unfoldable pub update_slot : RunId → (RunSlot → RunSlot) → Supervisor → Supervisor
update_slot id f v = record v { registry = update_where (λ s. s.id == id) f v.registry }

abbrev clear_detail : RunSlot → RunSlot
clear_detail s = record s { inner = record s.inner { detail = none } }

unfoldable pub spawn_one : RunId → Supervisor → Supervisor
spawn_one id v =
    if is_registered id v.registry
    then record (update_slot id clear_detail v) { spawned = v.spawned ++ id ∷ [] }
    else v

-- The loop of `finish` over the admitted runs.
unfoldable pub spawn_admitted : List RunId → Supervisor → Supervisor
spawn_admitted [] v = v
spawn_admitted (id ∷ ids) v = spawn_admitted ids (spawn_one id v)

abbrev pub is_complete : CleanupState → Bool
is_complete complete = true
is_complete _ = false

unfoldable pub finish : RunSlot → RunResult → LogState → Duration → Supervisor → Supervisor
finish slot result logs now v =
    let (_, sent) = Runner.finish slot.inner result logs in
    let (scheduler, admitted) =
      release v.scheduler slot.id (not (is_complete result.cleanup)) now in
    if is_terminal slot.inner.state
    then v
    else spawn_admitted admitted (record v {
      registry = retain (λ s. not (s.id == slot.id)) v.registry;
      scheduler = scheduler;
      writes = v.writes ++ map (λ w. (slot.id, w)) sent;
    })

-- The result of a run that never got a process.
abbrev pub unstarted : RunOutcome → String → ℕ → RunResult
unstarted outcome detail wall = record {
  outcome = outcome;
  exit_code = none;
  signal = none;
  started_at = none;
  finished_at = wall;
  duration_ms = 0;
  cleanup = complete;
  detail = some detail;
}

unfoldable pub expire_slot : RunId → Duration → ℕ → Supervisor → Supervisor
expire_slot id now wall v = elim (find? (λ s. s.id == id) v.registry) [
  | none ↦ v
  | some slot ↦
      finish slot (unstarted timed_out "queue timeout: waited for a slot too long" wall) slot.logs
        now v
]

-- The loop of a turn over the expired runs. A slot that is terminal is left alone by `finish`.
unfoldable pub expire_slots : List RunId → Duration → ℕ → Supervisor → Supervisor
expire_slots [] now wall v = v
expire_slots (id ∷ ids) now wall v = expire_slots ids now wall (expire_slot id now wall v)

-- A turn of the thread of `spawn_queue_tick`.
unfoldable pub queue_tick : Duration → ℕ → Supervisor → Supervisor
queue_tick now wall v =
    let (scheduler, expired) = expire v.scheduler now in
    expire_slots expired now wall (record v { scheduler = scheduler })

abbrev pub is_queued : RunState → Bool
is_queued RunState.queued = true
is_queued _ = false

unfoldable pub cancel_slot : RunSlot → Duration → ℕ → Supervisor → Supervisor
cancel_slot slot now wall v =
    let (scheduler, found) = cancel_queued v.scheduler slot.id in
    let flagged = update_slot slot.id (λ s. record s { cancel = true }) in
    if is_terminal slot.inner.state
    then v
    else if is_queued slot.inner.state
    then if found
      then finish slot (unstarted cancelled "cancelled while queued" wall) slot.logs now
          (record v { scheduler = scheduler })
      else flagged (record v { scheduler = scheduler })
    else flagged v

unfoldable pub cancel : RunId → Duration → ℕ → Supervisor → Supervisor
cancel id now wall v = elim (find? (λ s. s.id == id) v.registry) [
  | none ↦ v
  | some slot ↦ cancel_slot slot now wall v
]

-- The loop of `cancel_all` over the slots of the registry, which share their state with it.
unfoldable pub cancel_each : List RunSlot → Duration → ℕ → Supervisor → Supervisor
cancel_each [] now wall v = v
cancel_each (slot ∷ slots) now wall v = cancel_each slots now wall (cancel slot.id now wall v)

unfoldable pub cancel_all : Duration → ℕ → Supervisor → Supervisor
cancel_all now wall v = cancel_each v.registry now wall v

-- What a worker does with the slot of its run: `transition`, and `finish` at the end. A run has a
-- worker if it was spawned.
unfoldable pub move_run : RunId → RunStep → ℕ → Supervisor → Supervisor
move_run id step wall v = elim (find? (λ s. s.id == id) v.registry) [
  | none ↦ v
  | some slot ↦
      if any (λ i. i == id) v.spawned
      then record (update_slot id
          (λ s. record s { inner = (Runner.transition s.inner step wall).0 }) v) {
            writes = v.writes ++ map (λ w. (id, w)) (Runner.transition slot.inner step wall).1;
          }
      else v
]

unfoldable pub exit_run : RunId → RunResult → LogState → Duration → Supervisor → Supervisor
exit_run id result logs now v = elim (find? (λ s. s.id == id) v.registry) [
  | none ↦ v
  | some slot ↦ if any (λ i. i == id) v.spawned then finish slot result logs now v else v
]
