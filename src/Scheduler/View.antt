-- ===== src/Scheduler/View.antt =====
-- What src/runner/scheduler.rs shows of itself: the usage of the projects and the waiting requests.
use Prim.Native.String.{compare}
use text.Mathlib.Text.{is_le}
use wyd.Common.{
  ℕ, ◌+◌, ◌-◌, ◌/◌, String, List, [], ◌∷◌, map, ◌==◌, str_eq, if◌then◌else◌, u64, enumerate,
}
use wyd.Scheduler.{RunId, Duration, Queued, Running, Scheduler, slots_free, project_slots_free}

pub record ProjectUsage : Type 0 where
  pub project : String
  pub running : ℕ
  pub reserved_memory_bytes : ℕ

-- One round of the loop of `projects`: the project's entry grows, or a new one is pushed.
unfoldable pub count_run : List ProjectUsage → Running → List ProjectUsage
count_run [] run =
    record { project = run.project; running = 1; reserved_memory_bytes = run.memory_bytes } ∷ []
count_run (p ∷ out) run =
    let rest = count_run out run in
    if str_eq p.project run.project
    then record p {
      running = p.running + 1;
      reserved_memory_bytes = u64 (p.reserved_memory_bytes + run.memory_bytes);
    }
      ∷ out
    else p ∷ rest

unfoldable pub count_runs : List ProjectUsage → List Running → List ProjectUsage
count_runs out [] = out
count_runs out (run ∷ runs) = count_runs (count_run out run) runs

-- `sort_by` the project's name, which is stable: an insertion sort.
unfoldable pub insert_by_project : ProjectUsage → List ProjectUsage → List ProjectUsage
insert_by_project p [] = p ∷ []
insert_by_project p (q ∷ out) =
    let rest = insert_by_project p out in
    if is_le (compare p.project q.project) then p ∷ q ∷ out else q ∷ rest

unfoldable pub sort_by_project : List ProjectUsage → List ProjectUsage
sort_by_project [] = []
sort_by_project (p ∷ out) = insert_by_project p (sort_by_project out)

unfoldable pub projects : Scheduler → List ProjectUsage
projects s = sort_by_project (count_runs [] s.running)

-- The text of `reason`, by its case; the project and the limits that it names are in the entry
-- and in the limits.
pub data Reason : Type 0 where
  project_full all_busy no_memory : Reason

pub record QueueEntry : Type 0 where
  pub run_id : RunId
  pub project : String
  pub position : ℕ
  pub waiting_ms : ℕ
  pub memory_bytes : ℕ
  pub reason : Reason

unfoldable pub queue_entry : Scheduler → Duration → ℕ × Queued → QueueEntry
queue_entry s now (i, q) = record {
  run_id = q.id;
  project = q.project;
  position = i + 1;
  waiting_ms = u64 ((now - q.enqueued_at) / 1000000);
  memory_bytes = q.memory_bytes;
  reason =
      if project_slots_free s q.project == 0
      then project_full
      else if slots_free s == 0
      then all_busy
      else no_memory;
}

unfoldable pub queue_entries : Scheduler → Duration → List QueueEntry
queue_entries s now = map (queue_entry s now) (enumerate s.queue)
