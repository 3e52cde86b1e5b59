-- ===== src/Runner/Examples.antt =====
-- A run of src/runner/mod.rs that is started and exits, with writes that overtake each other.
use mathlib.Core.List.{Permᴰ}
use wyd.Common.{◌≡◌, refl, true, false, retain, none, some, List, [], ◌∷◌, arith, find?, String}
use wyd.Run.{
  RunSpec, RunState, starting, running, exited, pending, complete, new, cancelled, is_terminal,
}
use wyd.Store.{Store, Row, RunResult, RunStep, new_row, no_logs, run_get, find_row, record_from_row}
use wyd.Store.Persist.{Write, writes}
use wyd.Runner.{Call, transitions, finishes, new_inner, transition, finish}
use wyd.Scheduler.{Limits, RunId, Queued, cancel_queued}
use wyd.Scheduler.Conservation.{count}
use wyd.Runner.Recovery.{recover, recovered, recover-recovered}
use wyd.Runner.Queue.{RunSlot, Supervisor, is_registered, unstarted, cancel}
use wyd.Runner.Queue.Ends.{ends, steps, cancel-ends}
use wyd.Runner.Durable.{with_start, calls, calls-durable}

abbrev spec : RunSpec
unfolding new
spec = new (114 ∷ []) ((97 ∷ []) ∷ []) (47 ∷ 119 ∷ [])

-- The start is that of the leader; the result has none.
abbrev row : Row
row = record (new_row 1 77 spec "me" 1000) { started_at = some 1001 }

abbrev store : Store
store = record { runs = row ∷ []; events = []; next_id = 2 }

abbrev result : RunResult
result = record {
  outcome = exited;
  exit_code = some 0;
  signal = none;
  started_at = none;
  finished_at = 1005;
  duration_ms = 4000;
  cleanup = complete;
  detail = none;
}

abbrev step : RunState → String → RunStep
step state kind = record { state = state; cleanup = pending; kind = kind; detail = none }

-- The second finish, of a cancellation, comes too late.
abbrev life : List Call
life =
    transitions (step starting "starting") 1001
    ∷ transitions (step running "running") 1001
    ∷ finishes result no_logs
    ∷ finishes (record result { exit_code = none }) no_logs
    ∷ []

-- The finish overtakes the transition to `running`.
abbrev arrived : List Write
arrived =
    Write.transition 1 (step starting "starting") 1001
    ∷ Write.finish 3 result no_logs
    ∷ Write.transition 2 (step running "running") 1001
    ∷ []

stored : run_get store 1 ≡ some row
unfolding run_get find_row record_from_row find?
stored = refl

ended : is_terminal (calls new_inner life).0.state ≡ true
unfolding calls transition finish
ended = refl

overtakes : Permᴰ (calls new_inner life).1 arrived
unfolding calls transition finish
overtakes = Permᴰ.cons refl (Permᴰ.swap refl refl)

calls-durable_example :
    let slot = (calls new_inner life).0 in
    (r : Row) × (run_get (writes store 1 arrived) 1 ≡ some r)
    × (r.state ≡ slot.state)
    × (r.revision ≡ slot.revision)
    × (r.result ≡ with_start (some 1001) slot.result)
    × (r.cleanup ≡ slot.cleanup)
calls-durable_example =
    calls-durable store 1 row new_inner life arrived stored refl (omega arith) refl
      (refl, (refl, (tt, (tt, tt)))) overtakes ended

abbrev limits : Limits
limits = record {
  max_parallel = 1;
  max_parallel_per_project = 1;
  max_queued = 3;
  queue_timeout = 60000000000;
  memory_budget_bytes = 1000;
  default_run_memory_bytes = 100;
  starvation_after = 30000000000;
  cpu_budget_millicores = none;
  pids_budget = none;
}

abbrev waiting : RunId → Queued
waiting id = record {
  id = id;
  project = "a";
  memory_bytes = 100;
  enqueued_at = 0;
  deadline = 60000000000;
}

abbrev slot : RunId → RunSlot
slot id = record { id = id; inner = new_inner; cancel = false; logs = no_logs }

-- Run 1 runs, 2 and 3 wait for it.
abbrev supervisor : Supervisor
supervisor = record {
  registry = slot 1 ∷ slot 2 ∷ slot 3 ∷ [];
  scheduler = record {
    limits = limits;
    running = record { id = 1; project = "a"; memory_bytes = 100 } ∷ [];
    queue = waiting 2 ∷ waiting 3 ∷ [];
    held = [];
  };
  spawned = [];
  writes = [];
}

-- Run 2 is cancelled, and then run 1 ends.
cancel-ends_example :
    let after = cancel 2 1000 5 supervisor in
    let later = ends (slot 1) result no_logs 2000 ∷ [] in
    (after.writes
      ≡ (2, Write.finish 1 (unstarted cancelled "cancelled while queued" 5) no_logs) ∷ [])
    × (is_registered 2 (steps later after).registry ≡ false)
    × (count 2 (steps later after).spawned ≡ 0)
cancel-ends_example =
    cancel-ends supervisor 2 (slot 2) 1000 5 (ends (slot 1) result no_logs 2000 ∷ [])
      (unfold find? in refl) refl (unfold cancel_queued in unfold retain in refl)

-- The row is still queued; the supervisor that comes has another boot id.
recover-recovered_example :
    run_get (recover 8 3000 (λ _. (1, 0)) (λ _. "1") store) 1
    ≡ some (recovered 8 3000 (λ _. (1, 0)) (λ _. "1") row)
unfolding run_get find_row record_from_row find?
recover-recovered_example = recover-recovered 8 3000 (λ _. (1, 0)) (λ _. "1") store 1
