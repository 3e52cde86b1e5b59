-- ===== src/Scheduler/Quiet.antt =====
-- src/runner/scheduler.rs leaves no capacity unused that a waiting request could take.
use wyd.Common.{
  ℕ, suc, ◌+◌, ◌^◌, ◌≤◌, ◌<◌, ◌≡◌, refl, sym, ap, subst, ◌⊎◌, inl, inr, Bool, true, false, not,
  String, Option, some, unwrap_or, List, [], ◌∷◌, arith, ltb, leb, ◌==◌, Bool-cases, Option-cases,
  length, retain, find?, All, All-map₂, All-append, retain-All, length-retain_le, total-append,
}
use wyd.Scheduler.{
  Limits, Scheduler, Queued, Running, RunId, Duration, duration_max, new, slots_free,
  project_slots_free, reserved, can_admit, fits, submit, take_off, release, cancel_queued, expire,
}
use wyd.Scheduler.Policy.{admit_while-exhausts}
use wyd.Scheduler.Budget.{Inv, reserved-eq, length-of_project-put}
use wyd.Scheduler.Invariant.{
  Call, submits, releases, cancels, expires, after, step, run, step-Inv, new-Inv, run_of, start_run,
  enqueue, start_run-Inv,
}

-- No slot is free, or nothing that waits fits.
abbrev pub Quiet : Scheduler → Type 0
Quiet s = (slots_free s ≡ 0) ⊎ All (λ q. fits s q ≡ false) s.queue

retain_all :
    (p : Running → Bool) (rs : List Running) → length (retain p rs) ≡ length rs → retain p rs ≡ rs
unfolding retain
retain_all p [] h = refl
retain_all p (r ∷ rs) h = elim (Bool-cases (p r)) [
  | inl e ↦ rw e (ap (◌∷◌ r) (retain_all p rs (ground arith)))
  | inr e ↦ absurd (ground (arith, length-retain_le p rs))
]

retain_found :
    (id : RunId) (rs : List Running) (r : Running)
    → find? (λ x. x.id == id) rs ≡ some r
    → length (retain (λ x. not (x.id == id)) rs) < length rs
unfolding retain find?
retain_found id [] r h = absurd (cc)
retain_found id (x ∷ rs) r h = elim (Bool-cases (x.id == id)) [
  | inl e ↦ rw e (omega (arith, length-retain_le (λ y. not (y.id == id)) rs))
  | inr e ↦ rw e (ground (arith, retain_found id rs r))
]

-- A release of a run that is not running changes nothing.
take_off-absent :
    (s : Scheduler) (id : RunId) (hold : Bool)
    → length (take_off s id hold).running ≡ length s.running
    → take_off s id hold ≡ s
unfolding take_off
take_off-absent s id hold h =
    let same = retain_all (λ r. not (r.id == id)) s.running h in
    elim (Option-cases (find? (λ r. r.id == id) s.running)) [
      | inl e ↦ ground (arith, same, e)
      | inr (r, e) ↦ absurd (omega (arith, retain_found id s.running r e))
    ]

release-Quiet :
    (s : Scheduler) (id : RunId) (hold : Bool) (now : Duration)
    → Quiet s
    → Quiet (release s id hold now).0
unfolding release
release-Quiet s id hold now h =
    elim (Bool-cases (length (take_off s id hold).running == length s.running)) [
      | inl e ↦ rw e (subst Quiet (sym (take_off-absent s id hold (ground arith))) h)
      | inr e ↦ rw e (
          admit_while-exhausts (suc (length s.queue)) (take_off s id hold) now
            (unfold take_off in omega arith))
    ]

retain-Quiet :
    (s : Scheduler) (p : Queued → Bool) → Quiet s → Quiet (record s { queue = retain p s.queue })
unfolding slots_free fits project_slots_free reserved
retain-Quiet s p (inl z) = inl z
retain-Quiet s p (inr n) = inr (retain-All (λ q. fits s q ≡ false) p s.queue n)

-- What did not fit does not fit beside one more run.
fits-start_run :
    (s : Scheduler) (id : RunId) (project : String) (m : ℕ) (q : Queued)
    → Inv s
    → Inv (start_run s (run_of id project m))
    → q.memory_bytes ≤ s.memory_budget_bytes
    → fits s q ≡ false
    → fits (start_run s (run_of id project m)) q ≡ false
unfolding fits project_slots_free
fits-start_run s id project m q v w possible f = ground (
  arith,
  length-of_project-put q.project s.running (run_of id project m),
  reserved-eq s v,
  reserved-eq (start_run s (run_of id project m)) w,
  total-append (λ (r : Running). r.memory_bytes) s.running (run_of id project m ∷ []),
)

start_run-Quiet :
    (s : Scheduler) (id : RunId) (project : String) (m : ℕ)
    → Inv s
    → m ≤ s.memory_budget_bytes
    → can_admit s project m ≡ true
    → Quiet s
    → Quiet (start_run s (run_of id project m))
unfolding can_admit slots_free
start_run-Quiet s id project m v possible c (inl z) = absurd (ground arith)
start_run-Quiet s id project m v possible c (inr n) =
    let w = start_run-Inv s id project m v possible c in
    inr (All-map₂ (λ q k f. fits-start_run s id project m q v w k f) s.queue v.queued_possible n)

-- A request that cannot be admitted fits, at most, where no slot is free.
enqueue-Quiet :
    (s : Scheduler) (q : Queued)
    → can_admit s q.project q.memory_bytes ≡ false
    → Quiet s
    → Quiet (enqueue s q)
unfolding can_admit fits slots_free project_slots_free reserved
enqueue-Quiet s q c (inl z) = inl z
enqueue-Quiet s q c (inr n) = elim (Bool-cases (slots_free s == 0)) [
  | inl e ↦ inl (ground arith)
  | inr e ↦ inr (All-append (λ b. fits s b ≡ false) s.queue (q ∷ []) n (ground arith, tt))
]

submit-Quiet :
    (s : Scheduler) (id : RunId) (project : String) (m : ℕ) (timeout : Option Duration)
    (now : Duration)
    → Inv s
    → Quiet s
    → Quiet (after s (submit s id project m timeout now))
unfolding submit
submit-Quiet s id project m timeout now v h = elim (Bool-cases (ltb s.memory_budget_bytes m)) [
  | inl big ↦ rw big h
  | inr possible ↦ elim (Bool-cases (can_admit s project m)) [
    | inl c ↦ rw (possible, c) (start_run-Quiet s id project m v (ground arith) c h)
    | inr c ↦ elim (Bool-cases (leb s.max_queued (length s.queue))) [
      | inl over ↦ rw (possible, c, over) h
      | inr room ↦ elim (Bool-cases (ltb duration_max (now + unwrap_or timeout s.queue_timeout))) [
        | inl panics ↦ rw (possible, c, room, panics) h
        | inr fine ↦ rw (possible, c, room, fine) (enqueue-Quiet s _ c h)
      ]
    ]
  ]
]

step-Quiet : (s : Scheduler) (c : Call) → Inv s → Quiet s → Quiet (step s c)
unfolding step cancel_queued expire
step-Quiet s (submits id project m timeout now) v h = submit-Quiet s id project m timeout now v h
step-Quiet s (releases id hold now) v h = release-Quiet s id hold now h
step-Quiet s (cancels id) v h = retain-Quiet s (λ q. not (q.id == id)) h
step-Quiet s (expires now) v h = retain-Quiet s (λ q. not (leb q.deadline now)) h

run-Quiet : (s : Scheduler) (cs : List Call) → Inv s → Quiet s → Quiet (run s cs)
unfolding run
run-Quiet s [] v h = h
run-Quiet s (c ∷ cs) v h = run-Quiet (step s c) cs (step-Inv s c v) (step-Quiet s c v h)

new-Quiet : (l : Limits) → Quiet (new l)
unfolding new
new-Quiet l = inr tt

-- With a budget under 8 EiB and after any history of submissions, releases, cancellations and
-- expiries, no capacity lies idle that a waiting request could take: no slot is free, or no request
-- in the queue fits.
pub run-new-Quiet :
    (l : Limits) (cs : List Call) → l.memory_budget_bytes < 2 ^ 63 → Quiet (run (new l) cs)
run-new-Quiet l cs h = run-Quiet (new l) cs (new-Inv l h) (new-Quiet l)
