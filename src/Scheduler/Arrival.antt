-- ===== src/Scheduler/Arrival.antt =====
-- The queue of src/runner/scheduler.rs stays in order of arrival under a clock that never goes back.
use wyd.Common.{
  ℕ, suc, ◌+◌, ◌≤◌, ◌≡◌, subst, inl, inr, Bool, Option, unwrap_or, List, [], ◌∷◌, ◌++◌, arith, ltb,
  leb, ◌==◌, Bool-cases, retain, All, All-map, All-append, All-append_left, All-append_right,
  retain-All, String, length,
}
use wyd.Scheduler.{
  Limits, Scheduler, Queued, RunId, Duration, duration_max, new, admit, submit, can_admit, take_off,
  release, cancel_queued, expire,
}
use wyd.Scheduler.Policy.{admit_while-keeps}
use wyd.Scheduler.Invariant.{Call, submits, releases, cancels, expires, after, step, run}

-- In order of arrival, and none of them after `now`.
abbrev pub Ordered : List Queued → Type 0
Ordered [] = Unit {0}
Ordered (q ∷ qs) = All (λ b. q.enqueued_at ≤ b.enqueued_at) qs × Ordered qs

abbrev pub Timed : Duration → Scheduler → Type 0
Timed now s = Ordered s.queue × All (λ q. q.enqueued_at ≤ now) s.queue

pub Ordered-front :
    (front : List Queued) (q : Queued) (back : List Queued)
    → Ordered (front ++ q ∷ back)
    → All (λ b. b.enqueued_at ≤ q.enqueued_at) front
Ordered-front [] q back h = tt
Ordered-front (x ∷ front) q back h = (
  (All-append_right (λ b. x.enqueued_at ≤ b.enqueued_at) front (q ∷ back) h.0).0,
  Ordered-front front q back h.1,
)

Ordered-remove :
    (front : List Queued) (q : Queued) (back : List Queued)
    → Ordered (front ++ q ∷ back)
    → Ordered (front ++ back)
Ordered-remove [] q back h = h.1
Ordered-remove (x ∷ front) q back h = (
  All-append _ front back (All-append_left _ front (q ∷ back) h.0)
      (All-append_right (λ b. x.enqueued_at ≤ b.enqueued_at) front (q ∷ back) h.0).1,
  Ordered-remove front q back h.1,
)

Ordered-push :
    (qs : List Queued) (q : Queued)
    → Ordered qs
    → All (λ b. b.enqueued_at ≤ q.enqueued_at) qs
    → Ordered (qs ++ q ∷ [])
Ordered-push [] q h k = (tt, tt)
Ordered-push (x ∷ qs) q h k = (All-append _ qs (q ∷ []) h.0 (k.0, tt), Ordered-push qs q h.1 k.1)

Ordered-retain : (p : Queued → Bool) (qs : List Queued) → Ordered qs → Ordered (retain p qs)
unfolding retain
Ordered-retain p [] h = tt
Ordered-retain p (x ∷ qs) h = elim (Bool-cases (p x)) [
  | inl e ↦ rw e (retain-All _ p qs h.0, Ordered-retain p qs h.1)
  | inr e ↦ rw e (Ordered-retain p qs h.1)
]

pub admit-Timed :
    (now : Duration) (s : Scheduler) (q : Queued) (front back : List Queued)
    → s.queue ≡ front ++ q ∷ back
    → Timed now s
    → Timed now (admit s q (front ++ back))
admit-Timed now s q front back split (ord, old) =
    let older = subst (All (λ x. x.enqueued_at ≤ now)) split old in
    (
      Ordered-remove front q back (subst Ordered split ord),
      All-append _ front back (All-append_left _ front (q ∷ back) older)
          (All-append_right (λ (x : Queued). x.enqueued_at ≤ now) front (q ∷ back) older).1,
    )

retain-Timed :
    (now : Duration) (s : Scheduler) (p : Queued → Bool)
    → Timed now s
    → Timed now (record s { queue = retain p s.queue })
retain-Timed now s p (ord, old) = (Ordered-retain p s.queue ord, retain-All _ p s.queue old)

later-Timed : (old now : Duration) (s : Scheduler) → old ≤ now → Timed old s → Timed now s
later-Timed old now s h (ord, all) = (ord, All-map (λ q k. omega arith) s.queue all)

submit-Timed :
    (s : Scheduler) (id : RunId) (project : String) (m : ℕ) (timeout : Option Duration)
    (now : Duration)
    → Timed now s
    → Timed now (after s (submit s id project m timeout now))
unfolding submit
submit-Timed s id project m timeout now v = elim (Bool-cases (ltb s.memory_budget_bytes m)) [
  | inl big ↦ rw big v
  | inr possible ↦ elim (Bool-cases (can_admit s project m)) [
    | inl c ↦ rw (possible, c) v
    | inr c ↦ elim (Bool-cases (leb s.max_queued (length s.queue))) [
      | inl over ↦ rw (possible, c, over) v
      | inr room ↦ elim (Bool-cases (ltb duration_max (now + unwrap_or timeout s.queue_timeout))) [
        | inl panics ↦ rw (possible, c, room, panics) v
        | inr fine ↦
            rw (possible, c, room, fine)
              (Ordered-push s.queue _ v.0 v.1, All-append _ s.queue (_ ∷ []) v.1 (omega arith, tt))
      ]
    ]
  ]
]

release-Timed :
    (s : Scheduler) (id : RunId) (hold : Bool) (now at : Duration)
    → Timed at s
    → Timed at (release s id hold now).0
unfolding release take_off
release-Timed s id hold now at v =
    elim (Bool-cases (length (take_off s id hold).running == length s.running)) [
      | inl e ↦ rw e v
      | inr e ↦ rw e (
          admit_while-keeps (Timed at)
            (λ u q front back split _ _ w. admit-Timed at u q front back split w)
            (suc (length s.queue)) (take_off s id hold) now v)
    ]

-- The logical time of a call; `cancel_queued` takes none.
abbrev pub time : Duration → Call → Duration
time now (submits id project m timeout at) = at
time now (releases id hold at) = at
time now (cancels id) = now
time now (expires at) = at

-- The calls' times do not go back.
abbrev pub Chronological : Duration → List Call → Type 0
Chronological now [] = Unit {0}
Chronological now (c ∷ cs) = (now ≤ time now c) × Chronological (time now c) cs

abbrev pub last_time : Duration → List Call → Duration
last_time now [] = now
last_time now (c ∷ cs) = last_time (time now c) cs

step-Timed :
    (now : Duration) (s : Scheduler) (c : Call)
    → now ≤ time now c
    → Timed now s
    → Timed (time now c) (step s c)
unfolding step cancel_queued expire
step-Timed now s (submits id project m timeout at) h v =
    submit-Timed s id project m timeout at (later-Timed now at s h v)
step-Timed now s (releases id hold at) h v =
    release-Timed s id hold at at (later-Timed now at s h v)
step-Timed now s (cancels id) h v = retain-Timed now s _ v
step-Timed now s (expires at) h v = retain-Timed at s _ (later-Timed now at s h v)

pub run-Timed :
    (now : Duration) (s : Scheduler) (cs : List Call)
    → Chronological now cs
    → Timed now s
    → Timed (last_time now cs) (run s cs)
unfolding run
run-Timed now s [] h v = v
run-Timed now s (c ∷ cs) h v = run-Timed (time now c) (step s c) cs h.1 (step-Timed now s c h.0 v)

pub new-Timed : (l : Limits) → Timed 0 (new l)
unfolding new
new-Timed l = (tt, tt)
