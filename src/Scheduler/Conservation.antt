-- ===== src/Scheduler/Conservation.antt =====
-- No run is lost, made up or started twice by the scheduler of src/runner/scheduler.rs.
use wyd.Common.{
  ℕ, zero, suc, ◌+◌, ◌≡◌, refl, ap, ◌∙◌, inl, inr, Bool, true, false, not, some, List, [], ◌∷◌,
  ◌++◌, arith, ◌==◌, if◌then◌else◌, Bool-cases, length, take, retain, find?, total, total-append,
}
use wyd.Scheduler.{
  Scheduler, Queued, Running, RunId, Duration, admit, admit_while, take_off, release,
}
use wyd.Scheduler.Policy.{pick_next-cases}
use wyd.Scheduler.Budget.{memory}

-- How often a run stands among those running, waiting and just admitted.
abbrev pub same_id : RunId → RunId → ℕ
same_id a b = if a == b then 1 else 0

abbrev pub runs_of : RunId → List Running → ℕ
runs_of a = total (λ r. same_id r.id a)

abbrev pub waits_of : RunId → List Queued → ℕ
waits_of a = total (λ q. same_id q.id a)

abbrev pub count : RunId → List RunId → ℕ
count a = total (λ id. same_id id a)

admit_while-moves :
    (fuel : ℕ) (s : Scheduler) (now : Duration) (a : RunId)
    → let (t, ids) = admit_while fuel s now in
      (count a ids + waits_of a t.queue ≡ waits_of a s.queue)
      × (runs_of a t.running ≡ runs_of a s.running + count a ids)
unfolding admit_while
admit_while-moves zero s now a = (omega arith, omega arith)
admit_while-moves (suc fuel) s now a = elim (pick_next-cases s now) [
  | inl (o, _) ↦ rw (o, admit_while) (omega arith, omega arith)
  | inr (i, q, back, o, split, free, f) ↦
      let rest = admit_while-moves fuel (admit s q (take i s.queue ++ back)) now a in
      let taken = ap (waits_of a) split in
      let left = total-append (λ (x : Queued). same_id x.id a) (take i s.queue) (q ∷ back) in
      let right = total-append (λ (x : Queued). same_id x.id a) (take i s.queue) back in
      let put =
        total-append (λ (x : Running). same_id x.id a) s.running
          (record { id = q.id; project = q.project; memory_bytes = q.memory_bytes } ∷ []) in
      rw (o, admit_while) (omega (arith, rest, taken, left, right), omega (arith, rest, put))
]

runs_of-retain :
    (a id : RunId) (rs : List Running)
    → runs_of a (retain (λ r. not (r.id == id)) rs) ≡ (if a == id then 0 else runs_of a rs)
unfolding retain
runs_of-retain a id [] = ground arith
runs_of-retain a id (r ∷ rs) = ground (arith, runs_of-retain a id rs)

take_off-runs_of :
    (s : Scheduler) (id : RunId) (hold : Bool) (a : RunId)
    → (runs_of a (take_off s id hold).running ≡ (if a == id then 0 else runs_of a s.running))
      × (waits_of a (take_off s id hold).queue ≡ waits_of a s.queue)
unfolding take_off
take_off-runs_of s id hold a = (runs_of-retain a id s.running, refl)

-- `release` takes the run off the running ones and touches no other running run; each run that it
-- reports as admitted has moved from the queue to the running ones, once for each report, and no
-- other request has left the queue.
pub release-moves :
    (s : Scheduler) (id : RunId) (hold : Bool) (now : Duration) (a : RunId)
    → let (t, ids) = release s id hold now in
      (count a ids + waits_of a t.queue ≡ waits_of a s.queue)
      × (runs_of a t.running ≡ (if a == id then 0 else runs_of a s.running) + count a ids)
unfolding release
release-moves s id hold now a =
    let (runs, waits) = take_off-runs_of s id hold a in
    let (q, r) = admit_while-moves (suc (length s.queue)) (take_off s id hold) now a in
    elim (Bool-cases (length (take_off s id hold).running == length s.running)) [
      | inl e ↦ rw e (omega (arith, waits), omega (arith, runs))
      | inr e ↦ rw e (
        omega (arith, q, waits),
        r
            ∙ ap (λ n. n + count a (admit_while (suc (length s.queue)) (take_off s id hold) now).1)
                runs,
      )
    ]

retain_absent :
    (id : RunId) (rs : List Running)
    → runs_of id rs ≡ 0
    → memory (retain (λ r. not (r.id == id)) rs) ≡ memory rs
unfolding retain
retain_absent id [] h = refl
retain_absent id (r ∷ rs) h = ground (arith, retain_absent id rs)

retain_once :
    (id : RunId) (rs : List Running) (r : Running)
    → runs_of id rs ≡ 1
    → find? (λ x. x.id == id) rs ≡ some r
    → memory (retain (λ x. not (x.id == id)) rs) + r.memory_bytes ≡ memory rs
unfolding retain find?
retain_once id [] r h e = absurd (cc)
retain_once id (x ∷ rs) r h e = elim (Bool-cases (x.id == id)) [
  | inl hit ↦ ground (arith, retain_absent id rs)
  | inr miss ↦ ground (arith, retain_once id rs r)
]

-- Of a run that is running once, an incomplete cleanup keeps the reservation: what is reserved in
-- all stays the same. A complete one frees exactly the run's memory.
take_off-memory :
    (s : Scheduler) (id : RunId) (r : Running)
    → runs_of id s.running ≡ 1
    → find? (λ x. x.id == id) s.running ≡ some r
    → let kept = take_off s id true in
      let freed = take_off s id false in
      (memory kept.running + memory kept.held ≡ memory s.running + memory s.held)
      × (memory freed.running + r.memory_bytes + memory freed.held
          ≡ memory s.running + memory s.held)
unfolding take_off
take_off-memory s id r h e =
    let once = retain_once id s.running r h e in
    rw (e, take_off)
      (
        omega (arith, once, total-append (λ (x : Running). x.memory_bytes) s.held (r ∷ [])),
        omega (arith, once),
      )
