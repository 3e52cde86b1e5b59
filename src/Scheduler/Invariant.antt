-- ===== src/Scheduler/Invariant.antt =====
-- The caps and the memory budget of src/runner/scheduler.rs hold after any history of calls.
use wyd.Common.{
  ℕ, suc, ◌+◌, ◌^◌, ◌≤◌, ◌<◌, ◌≡◌, inl, inr, Bool, true, not, String, Option, none, some, List, [],
  ◌∷◌, ◌++◌, arith, leb, ltb, ◌==◌, Bool-cases, length, retain, retain-All, All-append,
  length-append, length-retain_le, unwrap_or,
}
use wyd.Scheduler.{
  duration_max, Scheduler, Limits, Queued, Running, RunId, Duration, Admission, new, can_admit,
  submit, take_off, release, cancel_queued, expire,
}
use wyd.Scheduler.Policy.{admit_while-keeps}
use wyd.Scheduler.Budget.{
  Inv, HasRoom, put_parallel, put_per_project, put_within_budget, admit-Inv, take_off-Inv,
}

-- A run that may start.
abbrev pub run_of : RunId → String → ℕ → Running
run_of id project m = record { id = id; project = project; memory_bytes = m }

abbrev pub start_run : Scheduler → Running → Scheduler
start_run s r = record s { running = s.running ++ r ∷ [] }

abbrev pub enqueue : Scheduler → Queued → Scheduler
enqueue s q = record s { queue = s.queue ++ q ∷ [] }

pub start_run-Inv :
    (s : Scheduler) (id : RunId) (project : String) (m : ℕ)
    → Inv s
    → m ≤ s.memory_budget_bytes
    → can_admit s project m ≡ true
    → Inv (start_run s (run_of id project m))
unfolding can_admit
start_run-Inv s id project m v possible c = record {
  budget_fits = v.budget_fits;
  parallel = put_parallel s (run_of id project m) v room;
  per_project = put_per_project s (run_of id project m) v room;
  within_budget = put_within_budget s (run_of id project m) v room possible;
  queue_bounded = v.queue_bounded;
  queued_possible = v.queued_possible;
}
  where
    room : HasRoom s (run_of id project m) v
    room = ground arith

enqueue-Inv :
    (s : Scheduler) (q : Queued)
    → Inv s
    → q.memory_bytes ≤ s.memory_budget_bytes
    → length s.queue < s.max_queued
    → Inv (enqueue s q)
enqueue-Inv s q v possible room = record {
  budget_fits = v.budget_fits;
  parallel = v.parallel;
  per_project = v.per_project;
  within_budget = v.within_budget;
  queue_bounded = omega (arith, length-append s.queue (q ∷ []));
  queued_possible = All-append _ s.queue (q ∷ []) v.queued_possible (possible, tt);
}

-- The scheduler after a call of `submit`; a panic comes before any change.
abbrev pub after : Scheduler → Option (Scheduler × Admission) → Scheduler
after s none = s
after s (some (t, a)) = t

-- `submit` keeps the caps and the budget, on every branch.
pub submit-Inv :
    (s : Scheduler) (id : RunId) (project : String) (m : ℕ) (timeout : Option Duration)
    (now : Duration)
    → Inv s
    → Inv (after s (submit s id project m timeout now))
unfolding submit
submit-Inv s id project m timeout now v = elim (Bool-cases (ltb s.memory_budget_bytes m)) [
  | inl big ↦ rw big v
  | inr possible ↦ elim (Bool-cases (can_admit s project m)) [
    | inl c ↦ rw (possible, c) (start_run-Inv s id project m v (ground arith) c)
    | inr c ↦ elim (Bool-cases (leb s.max_queued (length s.queue))) [
      | inl over ↦ rw (possible, c, over) v
      | inr room ↦ elim (Bool-cases (ltb duration_max (now + unwrap_or timeout s.queue_timeout))) [
        | inl panics ↦ rw (possible, c, room, panics) v
        | inr fine ↦ rw (possible, c, room, fine) (enqueue-Inv s _ v (ground arith) (ground arith))
      ]
    ]
  ]
]

-- `release` keeps them too, whatever it admits.
pub release-Inv :
    (s : Scheduler) (id : RunId) (hold : Bool) (now : Duration)
    → Inv s
    → Inv (release s id hold now).0
unfolding release
release-Inv s id hold now v =
    elim (Bool-cases (length (take_off s id hold).running == length s.running)) [
      | inl e ↦ rw e (take_off-Inv s id hold v)
      | inr e ↦ rw e (
          admit_while-keeps Inv admit-Inv (suc (length s.queue)) (take_off s id hold) now
            (take_off-Inv s id hold v))
    ]

shrink-Inv :
    (s : Scheduler) (p : Queued → Bool) → Inv s → Inv (record s { queue = retain p s.queue })
shrink-Inv s p v = record {
  budget_fits = v.budget_fits;
  parallel = v.parallel;
  per_project = v.per_project;
  within_budget = v.within_budget;
  queue_bounded = omega (arith, v.queue_bounded, length-retain_le p s.queue);
  queued_possible = retain-All _ p s.queue v.queued_possible;
}

-- The calls that the supervisor makes while the limits stay as they are.
pub data Call : Type 0 where
  submits : RunId → String → ℕ → Option Duration → Duration → Call
  releases : RunId → Bool → Duration → Call
  cancels : RunId → Call
  expires : Duration → Call

unfoldable pub step : Scheduler → Call → Scheduler
step s (submits id project m timeout now) = after s (submit s id project m timeout now)
step s (releases id hold now) = (release s id hold now).0
step s (cancels id) = (cancel_queued s id).0
step s (expires now) = (expire s now).0

unfoldable pub run : Scheduler → List Call → Scheduler
run s [] = s
run s (c ∷ cs) = run (step s c) cs

pub step-Inv : (s : Scheduler) (c : Call) → Inv s → Inv (step s c)
unfolding step cancel_queued expire
step-Inv s (submits id project m timeout now) v = submit-Inv s id project m timeout now v
step-Inv s (releases id hold now) v = release-Inv s id hold now v
step-Inv s (cancels id) v = shrink-Inv s (λ q. not (q.id == id)) v
step-Inv s (expires now) v = shrink-Inv s (λ q. not (leb q.deadline now)) v

pub run-Inv : (s : Scheduler) (cs : List Call) → Inv s → Inv (run s cs)
unfolding run
run-Inv s [] v = v
run-Inv s (c ∷ cs) v = run-Inv (step s c) cs (step-Inv s c v)

pub new-Inv : (l : Limits) → l.memory_budget_bytes < 2 ^ 63 → Inv (new l)
unfolding new retain
new-Inv l h = record {
  budget_fits = h;
  parallel = omega arith;
  per_project = λ p. omega arith;
  within_budget = omega arith;
  queue_bounded = omega arith;
  queued_possible = tt;
}

-- With a budget under 8 EiB, after any history of submissions, releases, cancellations and
-- expiries from a new scheduler: at most `max_parallel` runs are running, at most
-- `max_parallel_per_project` of each project, at most `max_queued` requests wait, each of which
-- fits into the budget by itself, and the memory of running and held reservations is at most the
-- budget.
pub run-new-Inv :
    (l : Limits) (cs : List Call) → l.memory_budget_bytes < 2 ^ 63 → Inv (run (new l) cs)
run-new-Inv l cs h = run-Inv (new l) cs (new-Inv l h)
