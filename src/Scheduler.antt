-- ===== src/Scheduler.antt =====
-- src/runner/scheduler.rs: admission of runs to slots and memory reservations, with a bounded queue.
--
-- A method that takes `&mut self` returns the new scheduler. A `Duration` is its number of
-- nanoseconds, a `RunId` the 64 bits of its `i64`, which the scheduler only compares. A `usize`
-- that counts entries of a list in memory does not wrap, and is a plain number; a sum of `u64`
-- bytes wraps, as in a release build. `submit` answers `none` where `Duration`'s `+` panics.
pub mod Budget
pub mod Invariant
pub mod Conservation
pub mod Policy
pub mod Arrival
pub mod Fifo
pub mod Quiet
pub mod Starvation
pub mod Waiting
pub mod Usage
pub mod View
mod Examples
use Prim.Native.String.{compare}
use text.Mathlib.Text.{is_le}
use wyd.Common.{
  ℕ, zero, suc, ◌+◌, ◌-◌, ◌*◌, ◌/◌, ◌^◌, String, Bool, true, false, not, ◌&&◌, Option, none, some,
  List, [], ◌∷◌, ◌++◌, map, ltb, leb, ◌==◌, str_eq, if◌then◌else◌, is_some, unwrap_or, u64, length,
  retain, find?, enumerate, min_by_key, remove_at, sum_u64,
}

abbrev pub RunId : Type 0
RunId = ℕ

abbrev pub Duration : Type 0
Duration = ℕ

-- `Duration::MAX`: 2^64 - 1 seconds and 999,999,999 nanoseconds.
abbrev pub duration_max : Duration
duration_max = 2 ^ 64 * 1000000000 - 1

pub record Limits : Type 0 where
  pub max_parallel : ℕ
  pub max_parallel_per_project : ℕ
  pub max_queued : ℕ
  pub queue_timeout : Duration
  pub memory_budget_bytes : ℕ
  pub default_run_memory_bytes : ℕ
  pub starvation_after : Duration
  pub cpu_budget_millicores : Option ℕ
  pub pids_budget : Option ℕ

pub data RejectReason : Type 0 where
  impossible : ℕ → ℕ → RejectReason
  queue_full : ℕ → RejectReason

pub data Admission : Type 0 where
  start : ℕ → Admission
  queued : ℕ → Admission
  rejected : RejectReason → Admission

pub record Queued : Type 0 where
  pub id : RunId
  pub project : String
  pub memory_bytes : ℕ
  pub enqueued_at : Duration
  pub deadline : Duration

pub record Running : Type 0 where
  pub id : RunId
  pub project : String
  pub memory_bytes : ℕ

pub record Scheduler : Type 0 where
  pub limits : Limits
  pub open limits use *
  pub running : List Running
  pub queue : List Queued
  pub held : List Running

unfoldable pub new : Limits → Scheduler
new limits = record { limits = limits; running = []; queue = []; held = [] }

unfoldable pub set_limits : Scheduler → Limits → Scheduler
set_limits s limits = record s { limits = limits }

unfoldable pub slots_free : Scheduler → ℕ
slots_free s = s.max_parallel - length s.running

-- The runs of one project.
abbrev pub of_project : String → List Running → List Running
of_project project = retain (λ r. str_eq r.project project)

unfoldable pub project_slots_free : Scheduler → String → ℕ
project_slots_free s project = s.max_parallel_per_project - length (of_project project s.running)

unfoldable pub reserved : Scheduler → ℕ
reserved s = sum_u64 (λ r. r.memory_bytes) (s.running ++ s.held)

unfoldable pub can_admit : Scheduler → String → ℕ → Bool
can_admit s project memory_bytes =
    ltb 0 (slots_free s)
    && ltb 0 (project_slots_free s project)
    && leb (u64 (reserved s + memory_bytes)) s.memory_budget_bytes

-- The closure `fits` of `candidate_index`.
unfoldable pub fits : Scheduler → Queued → Bool
fits s q =
    ltb 0 (project_slots_free s q.project)
    && leb (u64 (reserved s + q.memory_bytes)) s.memory_budget_bytes

-- The test of the first search: it fits, and has waited past `starvation_after`.
unfoldable pub is_starved : Scheduler → Duration → Queued → Bool
is_starved s now q = fits s q && leb s.starvation_after (now - q.enqueued_at)

-- The test of the second search: it fits, and no run of its project is running.
unfoldable pub is_idle : Scheduler → Queued → Bool
is_idle s q = fits s q && (project_slots_free s q.project == s.max_parallel_per_project)

-- The oldest of the queued requests that pass, with its index.
unfoldable pub oldest : (Queued → Bool) → List Queued → Option (ℕ × Queued)
oldest p queue = min_by_key (λ e. e.1.enqueued_at) (retain (λ e. p e.1) (enumerate queue))

abbrev pub index_of : Option (ℕ × Queued) → Option ℕ
index_of none = none
index_of (some e) = some e.0

unfoldable pub candidate_index : Scheduler → Duration → Option ℕ
candidate_index s now =
    let starved = index_of (find? (λ e. is_starved s now e.1) (enumerate s.queue)) in
    let idle_project = index_of (oldest (is_idle s) s.queue) in
    if slots_free s == 0
    then none
    else if is_some starved
    then starved
    else if is_some idle_project
    then idle_project
    else index_of (oldest (fits s) s.queue)

-- The scheduler once a queued request has been moved to `running`.
abbrev pub admit : Scheduler → Queued → List Queued → Scheduler
admit s next rest = record s {
  queue = rest;
  running =
      s.running
      ++ record { id = next.id; project = next.project; memory_bytes = next.memory_bytes } ∷ [];
}

abbrev pub admit_from : Scheduler → Option (Queued × List Queued) → Option (RunId × Scheduler)
admit_from s none = none
admit_from s (some (next, rest)) = some (next.id, admit s next rest)

unfoldable pub pick_next : Scheduler → Duration → Option (RunId × Scheduler)
pick_next s now = elim (candidate_index s now) [
  | none ↦ none
  | some index ↦ admit_from s (remove_at index s.queue)
]

-- `while let Some(next) = self.pick_next(now)`. Each round takes one request from the queue, so
-- one unit of fuel more than the queue is long lets the loop end by itself.
unfoldable pub admit_while : ℕ → Scheduler → Duration → Scheduler × List RunId
admit_while zero s now = (s, [])
admit_while (suc fuel) s now = elim (pick_next s now) [
  | none ↦ (s, [])
  | some (next, s') ↦ let rest = admit_while fuel s' now in (rest.0, next ∷ rest.1)
]

unfoldable pub submit :
    Scheduler → RunId → String → ℕ → Option Duration → Duration → Option (Scheduler × Admission)
submit s id project memory_bytes queue_timeout now =
    let deadline = now + unwrap_or queue_timeout s.queue_timeout in
    let queue =
      s.queue
      ++ record {
        id = id;
        project = project;
        memory_bytes = memory_bytes;
        enqueued_at = now;
        deadline = deadline;
      }
        ∷ [] in
    if ltb s.memory_budget_bytes memory_bytes
    then some (s, rejected (impossible memory_bytes s.memory_budget_bytes))
    else if can_admit s project memory_bytes
    then some (
      record s {
        running =
            s.running ++ record { id = id; project = project; memory_bytes = memory_bytes } ∷ [];
      },
      start memory_bytes,
    )
    else if leb s.max_queued (length s.queue)
    then some (s, rejected (queue_full s.max_queued))
    else if ltb duration_max deadline
    then none
    else some (record s { queue = queue }, queued (length queue))

-- The scheduler once a run has left `running`, its reservation held if the cleanup was incomplete.
unfoldable pub take_off : Scheduler → RunId → Bool → Scheduler
take_off s id hold = record s {
  running = retain (λ r. not (r.id == id)) s.running;
  held = elim (if hold then find? (λ r. r.id == id) s.running else none) [
    | none ↦ s.held
    | some r ↦ s.held ++ r ∷ []
  ];
}

unfoldable pub release : Scheduler → RunId → Bool → Duration → Scheduler × List RunId
release s id hold now =
    let s' = take_off s id hold in
    let admitted = admit_while (suc (length s.queue)) s' now in
    if length s'.running == length s.running then (s', []) else admitted

unfoldable pub cancel_queued : Scheduler → RunId → Scheduler × Bool
cancel_queued s id =
    let queue = retain (λ q. not (q.id == id)) s.queue in
    (record s { queue = queue }, not (length queue == length s.queue))

unfoldable pub expire : Scheduler → Duration → Scheduler × List RunId
expire s now = (
  record s { queue = retain (λ q. not (leb q.deadline now)) s.queue },
  map (λ q. q.id) (retain (λ q. leb q.deadline now) s.queue),
)

unfoldable pub position_from : ℕ → RunId → List Queued → Option ℕ
position_from i id [] = none
position_from i id (q ∷ queue) =
    let rest = position_from (i + 1) id queue in if q.id == id then some (i + 1) else rest

unfoldable pub position : Scheduler → RunId → Option ℕ
position s id = position_from 0 id s.queue
