-- ===== src/Runner/Start/Examples.antt =====
-- A supervisor of src/runner/mod.rs that starts two runs, of which one waits and is cancelled.
use wyd.Common.{
  ℕ, ◌+◌, ◌≡◌, ◌≢◌, ◌⊎◌, ◌≤◌, refl, true, false, Option, none, some, List, [], ◌∷◌, String, arith,
  find?, enumerate_from, retain, any, update_where, sum_u64_from,
}
use wyd.Run.{Bytes, RunSpec, new, starting, pending, fingerprint, exited, complete}
use wyd.Run.Capabilities.{other, check_capabilities}
use wyd.Scheduler.{
  Limits, RejectReason, submit, can_admit, slots_free, project_slots_free, reserved, cancel_queued,
  release, take_off,
}
use wyd.Scheduler.Conservation.{count, waits_of}
use wyd.Scheduler.View.{Reason, queue_entries, queue_entry}
use wyd.Store.{RunResult, run_finish, run_insert, recent, bytes_eq, run_event, no_logs}
use wyd.Runner.Queue.{cancel, cancel_slot, finish, spawn_admitted, update_slot, move_run, exit_run}
use wyd.Runner.{transition}
use wyd.Runner.Start.{System, started, failed, request_taken, check, start, decide, admit}
use wyd.Runner.Start.Started.{WellFormed}
use wyd.Runner.Start.History.{
  Step, starts, moves, exits, cancels, step, steps, steps-one_worker, new_system-WellFormed,
}
use wyd.Store.Calls.{finishes, call}
use wyd.Runner.Start.Repeats.{Event, asks, arrives, event, happens, start-repeats}

abbrev limits : Limits
limits = record {
  max_parallel = 1;
  max_parallel_per_project = 1;
  max_queued = 3;
  queue_timeout = 60000000000;
  memory_budget_bytes = 1000;
  default_run_memory_bytes = 100;
  starvation_after = 30000000000;
  cpu_budget_millicores = none;
  pids_budget = none;
}

-- The request `byte` to run "a" in "/w".
abbrev request : ℕ → RunSpec
unfolding new
request byte = new (byte ∷ []) ((97 ∷ []) ∷ []) (47 ∷ 119 ∷ [])

abbrev digest : Bytes → ℕ
digest [] = 0
digest (b ∷ bs) = b + digest bs

abbrev project : Bytes → String
project _ = "w"

abbrev queued_text : ℕ → Option Reason → String
queued_text _ _ = "queued"

abbrev refused_text : RejectReason → String
refused_text _ = "refused"

abbrev opened : System
opened = record {
  store = record { runs = []; events = []; next_id = 1 };
  supervisor = record {
    registry = [];
    scheduler = record { limits = limits; running = []; queue = []; held = [] };
    spawned = [];
    writes = [];
  };
}

abbrev result : RunResult
result = record {
  outcome = exited;
  exit_code = some 0;
  signal = none;
  started_at = some 1001;
  finished_at = 1005;
  duration_ms = 4000;
  cleanup = complete;
  detail = none;
}

-- Run 1 starts, run 2 waits and is cancelled, and run 1 ends.
abbrev history : List Step
history =
    starts (request 114) [] 0 1000
    ∷ starts (request 115) [] 10 1000
    ∷ moves 1 (record { state = starting; cleanup = pending; kind = "starting"; detail = none })
        1001
    ∷ cancels 2 20 1002
    ∷ exits 1 result no_logs 30
    ∷ []

abbrev or_opened : Option System → System
or_opened none = opened
or_opened (some t) = t

abbrev after : System
after = or_opened (steps other true digest "me" project queued_text refused_text history opened)

returns : steps other true digest "me" project queued_text refused_text history opened ≡ some after
unfolding steps step start check admit decide run_insert recent find? submit can_admit slots_free
    project_slots_free reserved retain sum_u64_from any update_where update_slot run_event cancel
    cancel_slot cancel_queued release take_off finish spawn_admitted move_run exit_run
    check_capabilities enumerate_from queue_entries queue_entry bytes_eq transition request
returns = refl

steps-one_worker_example :
    WellFormed after
    × (count 2 after.supervisor.spawned + waits_of 2 after.supervisor.scheduler.queue ≤ 1)
unfolding wyd.Scheduler.new
steps-one_worker_example =
    steps-one_worker other true digest "me" project queued_text refused_text history opened after 2
      (tt, (tt, (refl, (tt, (tt, tt))))) (new_system-WellFormed limits opened.store) returns

abbrev first : System
first = or_opened (
    steps other true digest "me" project queued_text refused_text
      (starts (request 114) [] 0 1000 ∷ []) opened)

start-first :
    start other true digest "me" project queued_text refused_text (request 114) [] 0 1000 opened
    ≡ some (first, started 1 true)
unfolding steps step start check admit decide run_insert recent find? submit can_admit slots_free
    project_slots_free reserved retain sum_u64_from any update_where update_slot run_event
    check_capabilities enumerate_from queue_entries queue_entry bytes_eq request
start-first = refl

accepted : check other true digest "me" project queued_text refused_text (request 114) [] ≡ none
unfolding check check_capabilities request
accepted = refl

-- Another request waits, the first run is over, and its finish reaches the store.
abbrev between : List Event
between =
    asks (starts (request 115) [] 5 1005)
    ∷ asks (exits 1 result no_logs 6)
    ∷ arrives (finishes 1 1 result no_logs)
    ∷ []

abbrev later : System
later = or_opened (happens other true digest "me" project queued_text refused_text between first)

happened :
    happens other true digest "me" project queued_text refused_text between first ≡ some later
unfolding happens event step start check admit decide run_insert recent find? submit can_admit
    slots_free project_slots_free reserved retain sum_u64_from any update_where update_slot
    run_event release take_off finish spawn_admitted exit_run check_capabilities enumerate_from
    queue_entries queue_entry bytes_eq request call run_finish steps
happened = refl

-- The same request, nine seconds after it was made.
start-repeats_example :
    let next =
      start other true digest "me" project queued_text refused_text (request 114) [] 9 1009 later in
    ((fingerprint digest (request 114) ≡ fingerprint digest (request 114))
      × (next ≡ some (later, started 1 false)))
    ⊎ ((fingerprint digest (request 114) ≢ fingerprint digest (request 114))
        × (next ≡ some (later, failed (request_taken 1))))
start-repeats_example =
    start-repeats other true digest "me" project queued_text refused_text (request 114)
      (request 114) [] [] 0 9 1000 1009 opened first later
      (run_insert digest opened.store (request 114) "me" 1000).0 1 (started 1 true) between tt
      accepted accepted refl (omega arith)
      (unfold run_insert in unfold recent in unfold find? in refl) start-first
      (omega arith, (tt, (tt, tt))) happened
