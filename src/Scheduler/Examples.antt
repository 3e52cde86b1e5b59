-- ===== src/Scheduler/Examples.antt =====
-- Runs of src/runner/scheduler.rs at concrete limits, after its tests, and instances of the theorems.
use wyd.Common.{
  All, ℕ, ◌+◌, ◌*◌, ◌^◌, ◌<◌, ◌≡◌, refl, false, none, some, List, [], ◌∷◌, arith, retain, find?,
  enumerate_from, min_by_key, remove_at, sum_u64_from, ◌-◌,
}
use wyd.Scheduler.{
  Limits, Scheduler, Queued, Running, Duration, new, slots_free, project_slots_free, reserved,
  can_admit, fits, is_starved, is_idle, oldest, candidate_index, pick_next, admit_while, submit,
  take_off, release, expire,
}
use wyd.Scheduler.Policy.{candidate_index-Choice, Choice}
use wyd.Scheduler.Budget.{Inv}
use wyd.Scheduler.Invariant.{Call, submits, run, step, run-new-Inv}
use wyd.Scheduler.Conservation.{release-moves, runs_of, waits_of, count}
use wyd.Scheduler.Fifo.{Admits, release-run_fifo}
use wyd.Scheduler.Quiet.{Quiet, run-new-Quiet}
use wyd.Scheduler.Starvation.{crowd, churn, starved_bypassed}
use wyd.Scheduler.Waiting.{IsDue, expire-partitions}

abbrev seconds : ℕ → Duration
seconds n = n * 1000000000

abbrev limits : Limits
limits = record {
  max_parallel = 2;
  max_parallel_per_project = 1;
  max_queued = 3;
  queue_timeout = seconds 60;
  memory_budget_bytes = 1000;
  default_run_memory_bytes = 100;
  starvation_after = seconds 30;
  cpu_budget_millicores = none;
  pids_budget = none;
}

-- The calls of the test `parallel_and_per_project_caps_are_respected`.
abbrev four_calls : List Call
four_calls =
    submits 1 "a" 100 none 0
    ∷ submits 2 "a" 100 none 0
    ∷ submits 3 "b" 100 none 0
    ∷ submits 4 "c" 100 none 0
    ∷ []

abbrev waiting_a : Queued
waiting_a = record {
  id = 2;
  project = "a";
  memory_bytes = 100;
  enqueued_at = 0;
  deadline = seconds 60;
}

abbrev waiting_c : Queued
waiting_c = record {
  id = 4;
  project = "c";
  memory_bytes = 100;
  enqueued_at = 0;
  deadline = seconds 60;
}

abbrev running_a : Running
running_a = record { id = 1; project = "a"; memory_bytes = 100 }

abbrev running_b : Running
running_b = record { id = 3; project = "b"; memory_bytes = 100 }

abbrev busy : Scheduler
busy = record {
  limits = limits;
  running = running_a ∷ running_b ∷ [];
  queue = waiting_a ∷ waiting_c ∷ [];
  held = [];
}

-- Before the last call.
abbrev idle_c : Scheduler
idle_c = record busy { queue = waiting_a ∷ [] }

four_calls-run : run (new limits) four_calls ≡ busy
unfolding run step submit new can_admit slots_free project_slots_free reserved retain sum_u64_from
four_calls-run = refl

-- The oldest request whose project is idle goes first.
release_admits : (release busy 1 false 0).1 ≡ 2 ∷ []
unfolding release take_off admit_while pick_next candidate_index slots_free project_slots_free
    reserved fits is_starved is_idle oldest retain find? enumerate_from min_by_key remove_at
    sum_u64_from
release_admits = refl

run-new-Inv_example : Inv (run (new limits) four_calls)
run-new-Inv_example = run-new-Inv limits four_calls (omega arith)

candidate_index-Choice_example : Choice busy 5 (candidate_index busy 5)
candidate_index-Choice_example = candidate_index-Choice busy 5

release-moves_example :
    (count 2 (release busy 1 false 0).1 + waits_of 2 (release busy 1 false 0).0.queue ≡ 1)
    × (runs_of 2 (release busy 1 false 0).0.running ≡ 0 + count 2 (release busy 1 false 0).1)
release-moves_example = release-moves busy 1 false 0 2

abbrev limits_wide : Limits
limits_wide = record limits { max_parallel_per_project = 2 }

abbrev big : Queued
big = record waiting_c { memory_bytes = 900 }

starved_bypassed_example :
    run (crowd limits_wide big "a" 200 0) (churn limits_wide big "a" 200 seconds 0 5)
    ≡ crowd limits_wide big "a" 200 5
starved_bypassed_example =
    starved_bypassed limits_wide big "a" 200
      (record {
        parallel = omega arith;
        per_project = omega arith;
        two_fit = omega arith;
        not_beside = omega arith;
        possible = omega arith;
        budget_fits = omega arith;
      })
      seconds 5

-- The earlier request of `a` does not fit beside the run of `b` and is overtaken.
abbrev large_first : List Call
large_first =
    submits 1 "a" 100 none 0
    ∷ submits 2 "b" 100 none 0
    ∷ submits 3 "a" 950 none 1
    ∷ submits 4 "a" 100 none 2
    ∷ []

release-run_fifo_example :
    Admits
      (take_off (run (new limits) large_first) 1 false)
      (release (run (new limits) large_first) 1 false 5).1
      (release (run (new limits) large_first) 1 false 5).0
release-run_fifo_example = release-run_fifo limits large_first 1 false 5 (omega arith)

run-new-Quiet_example : Quiet (run (new limits) large_first)
run-new-Quiet_example = run-new-Quiet limits large_first (omega arith)

-- The caller's timeout is the greatest `u64` number of seconds: the sum with the time panics.
panics : submit idle_c 4 "c" 100 (some (seconds (2 ^ 64 - 1))) (seconds 1) ≡ none
unfolding submit can_admit slots_free
panics = refl

-- The second of two that wait is due.
abbrev two_waiting : Scheduler
two_waiting = record {
  limits = limits;
  running = [];
  queue =
      record { id = 1; project = "a"; memory_bytes = 1; enqueued_at = 0; deadline = 9 }
      ∷ record { id = 2; project = "a"; memory_bytes = 1; enqueued_at = 0; deadline = 5 }
      ∷ [];
  held = [];
}

expire-partitions_example :
    let (t, ids) = expire two_waiting 5 in
    (count 2 ids + waits_of 2 t.queue ≡ waits_of 2 two_waiting.queue)
    × All (IsDue 5 two_waiting.queue) ids
    × All (λ q. 5 < q.deadline) t.queue
    × (t.running ≡ two_waiting.running)
    × ((expire t 5).1 ≡ [])
expire-partitions_example = expire-partitions two_waiting 5 2
