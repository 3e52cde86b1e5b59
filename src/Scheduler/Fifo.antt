-- ===== src/Scheduler/Fifo.antt =====
-- src/runner/scheduler.rs under a clock that never goes back: a project's requests are admitted in
-- the order in which they came.
use wyd.Common.{
  ℕ, zero, suc, ◌≤◌, ◌≡◌, sym, subst, inl, inr, Bool, true, false, none, some, List, [], ◌∷◌, ◌++◌,
  arith, ◌==◌, Bool-cases, Option-cases, get_elem?, take, All, All-map₂, remove_at-split, length,
}
use wyd.Scheduler.{
  Limits, Scheduler, Queued, RunId, Duration, new, fits, is_starved, is_idle, candidate_index,
  admit, admit_while, pick_next, take_off, release,
}
use wyd.Scheduler.Policy.{
  full, nothing_fits, first_starved, oldest_idle, oldest_fitting, candidate_index-Choice,
}
use wyd.Scheduler.Invariant.{Call, run}
use wyd.Scheduler.Arrival.{
  Ordered, Timed, Ordered-front, admit-Timed, run-Timed, new-Timed, last_time, Chronological,
}

same_project-idle :
    (s : Scheduler) (q b : Queued)
    → is_idle s q ≡ true
    → fits s b ≡ true
    → b.project ≡ q.project
    → is_idle s b ≡ true
unfolding is_idle
same_project-idle s q b i f e = rw (f, e) (ground arith)

-- An earlier request that fits has waited at least as long.
older-starved :
    (s : Scheduler) (now : Duration) (q b : Queued)
    → is_starved s now q ≡ true
    → fits s b ≡ true
    → b.enqueued_at ≤ q.enqueued_at
    → is_starved s now b ≡ true
unfolding is_starved
older-starved s now q b st f h = ground arith

-- What stands before the request that a choice takes.
abbrev pub Overtakes : Scheduler → Queued → Queued → Type 0
Overtakes s q b = b.project ≡ q.project → fits s b ≡ false

not_fits :
    (s : Scheduler) (q b : Queued) → (fits s b ≡ true → b.project ≡ q.project → ⊥) → Overtakes s q b
not_fits s q b h e = elim (Bool-cases (fits s b)) [ inl f ↦ absurd (h f e) | inr f ↦ f ]

-- The form in which a pick is justified: what stands before it in the queue does not fit.
abbrev pub Fifo : Scheduler → RunId → Scheduler → Type 0
Fifo s id t =
    (front : List Queued) × (q : Queued) × (back : List Queued) × (s.queue ≡ front ++ q ∷ back)
    × (q.id ≡ id)
    × (t ≡ admit s q (front ++ back))
    × All (Overtakes s q) front

-- A choice of entry `i`, once the entries before it are known not to fit.
fifo :
    (s : Scheduler) (now : Duration) (i : ℕ) (q : Queued) (id : RunId) (t : Scheduler)
    → candidate_index s now ≡ some i
    → get_elem? s.queue i ≡ some q
    → pick_next s now ≡ some (id, t)
    → All (Overtakes s q) (take i s.queue)
    → Fifo s id t
unfolding pick_next
fifo s now i q id t c at p passed =
    let (back, o, split) = remove_at-split i s.queue q at in
    (take i s.queue, q, back, split, ground (arith, c, o), ground (arith, c, o), passed)

arrived_before :
    (i : ℕ) (queue : List Queued) (q : Queued)
    → Ordered queue
    → get_elem? queue i ≡ some q
    → All (λ b. b.enqueued_at ≤ q.enqueued_at) (take i queue)
arrived_before i queue q ord at =
    let (back, _, split) = remove_at-split i queue q at in
    Ordered-front (take i queue) q back (subst Ordered split ord)

pick_next-none :
    (s : Scheduler) (now : Duration) → candidate_index s now ≡ none → pick_next s now ≡ none
unfolding pick_next
pick_next-none s now e = rw (e, pick_next)

-- With the queue in order of arrival, a request is admitted while an earlier one of its own project
-- waits only if that one does not fit.
pub pick_next-Fifo :
    (s : Scheduler) (now : Duration) (id : RunId) (t : Scheduler)
    → Ordered s.queue
    → pick_next s now ≡ some (id, t)
    → Fifo s id t
pick_next-Fifo s now id t ord p = elim (candidate_index-Choice s now) [
  | full z o ↦ absurd (cc (pick_next-none s now o))
  | nothing_fits n o ↦ absurd (cc (pick_next-none s now o))
  | first_starved i q o at free st before ↦ fifo s now i q id t o at p (
      All-map₂ (λ b u old. not_fits s q b (λ f e. cc (older-starved s now q b st f old)))
        (take i s.queue) before (arrived_before i s.queue q ord at))
  | oldest_idle i q o at free idle un least before ↦ fifo s now i q id t o at p (
      All-map₂
        (λ b later old.
          not_fits s q b (λ f e. omega (arith, later (same_project-idle s q b idle f e))))
        (take i s.queue) before (arrived_before i s.queue q ord at))
  | oldest_fitting i q o at free f un busy least before ↦ fifo s now i q id t o at p (
      All-map₂ (λ b later old. not_fits s q b (λ g e. omega (arith, later g))) (take i s.queue)
        before (arrived_before i s.queue q ord at))
]

Fifo-Timed :
    (at : Duration) (s : Scheduler) (id : RunId) (t : Scheduler)
    → Fifo s id t
    → Timed at s
    → Timed at t
Fifo-Timed at s id t (front, q, back, split, same, e, passed) v =
    subst (Timed at) (sym e) (admit-Timed at s q front back split v)

-- Admissions one after the other, each of them first come, first served within its project.
pub data Admits : Scheduler → List RunId → Scheduler → Type 0 where
  stop : {s : Scheduler} → Admits s [] s
  next :
      {s t u : Scheduler} {id : RunId} {ids : List RunId}
      → Fifo s id t
      → Admits t ids u
      → Admits s (id ∷ ids) u

admit_while-Admits :
    (fuel : ℕ) (s : Scheduler) (now at : Duration)
    → Timed at s
    → Admits s (admit_while fuel s now).1 (admit_while fuel s now).0
unfolding admit_while
admit_while-Admits zero s now at v = stop
admit_while-Admits (suc fuel) s now at v = elim (Option-cases (pick_next s now)) [
  | inl o ↦ rw (o, admit_while) stop
  | inr ((id, t), o) ↦
      let step = pick_next-Fifo s now id t v.0 o in
      rw (o, admit_while)
        (next step (admit_while-Admits fuel t now at (Fifo-Timed at s id t step v)))
]

-- After any history of calls whose times do not go back, `release` admits waiting requests one
-- after the other, and each of them overtakes an earlier one of its own project only if that one
-- does not fit at that moment: within a project admission is first come, first served.
pub release-run_fifo :
    (l : Limits) (cs : List Call) (id : RunId) (hold : Bool) (now : Duration)
    → Chronological 0 cs
    → let s = run (new l) cs in
      Admits (take_off s id hold) (release s id hold now).1 (release s id hold now).0
unfolding release
release-run_fifo l cs id hold now h =
    let s = run (new l) cs in
    let timed = run-Timed 0 (new l) cs h (new-Timed l) in
    elim (Bool-cases (length (take_off s id hold).running == length s.running)) [
      | inl e ↦ rw e stop
      | inr e ↦ rw e (
          admit_while-Admits (suc (length s.queue)) (take_off s id hold) now (last_time 0 cs)
            (unfold take_off in timed))
    ]
