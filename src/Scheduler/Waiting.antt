-- ===== src/Scheduler/Waiting.antt =====
-- Requests that wait in src/runner/scheduler.rs: how they enter the queue, and how they leave it
-- without being started.
use wyd.Common.{
  ℕ, ◌+◌, ◌≤◌, ◌<◌, ◌≡◌, refl, ap, ◌⊎◌, false, not, Option, some, unwrap_or, List, [], ◌∷◌, ◌++◌,
  arith, ltb, leb, ◌==◌, if◌then◌else◌, length, length-append, retain, All, All-map, retain-passes,
  String, map, any, Bool-cases, inl, inr, ◌&&◌, true,
}
use wyd.Scheduler.{
  Scheduler, Queued, RunId, Duration, queued, rejected, RejectReason, impossible, queue_full,
  can_admit, submit, cancel_queued, expire, position, position_from,
}
use wyd.Scheduler.Conservation.{waits_of, count}

position_from-push :
    (i : ℕ) (queue : List Queued) (q : Queued)
    → waits_of q.id queue ≡ 0
    → position_from i q.id (queue ++ q ∷ []) ≡ some (i + length queue + 1)
unfolding position_from
position_from-push i [] q h = ground arith
position_from-push i (x ∷ queue) q h = ground (arith, position_from-push (i + 1) queue q)

-- A request that `submit` answers with a position is at that position, if its run was not waiting
-- before; it is the last in the queue, and the running runs are as they were.
submit-position :
    (s t : Scheduler) (id : RunId) (project : String) (m : ℕ) (timeout : Option Duration)
    (now : Duration) (n : ℕ)
    → waits_of id s.queue ≡ 0
    → submit s id project m timeout now ≡ some (t, queued n)
    → (position t id ≡ some n) × (n ≡ length t.queue) × (t.running ≡ s.running)
unfolding submit position
submit-position s t id project m timeout now n fresh e = (
  ground (arith, position_from-push 0 s.queue q, length-append s.queue (q ∷ [])),
  ground arith,
  ground arith,
)
  where
    q : Queued
    q = record {
      id = id;
      project = project;
      memory_bytes = m;
      enqueued_at = now;
      deadline = now + unwrap_or timeout s.queue_timeout;
    }

-- `submit` refuses a request for more than the whole budget, and one that finds the queue full
-- when it cannot start; it refuses no other. A refusal changes nothing.
submit-refuses :
    (s t : Scheduler) (id : RunId) (project : String) (m : ℕ) (timeout : Option Duration)
    (now : Duration) (r : RejectReason)
    → submit s id project m timeout now ≡ some (t, rejected r)
    → (t ≡ s)
      × (((s.memory_budget_bytes < m) × (r ≡ impossible m s.memory_budget_bytes))
          ⊎ ((m ≤ s.memory_budget_bytes)
              × (can_admit s project m ≡ false)
              × (s.max_queued ≤ length s.queue)
              × (r ≡ queue_full s.max_queued)))
unfolding submit
submit-refuses s t id project m timeout now r e = ground arith

pub expire_counts :
    (a : RunId) (now : Duration) (queue : List Queued)
    → count a (map (λ q. q.id) (retain (λ q. leb q.deadline now) queue))
        + waits_of a (retain (λ q. not (leb q.deadline now)) queue)
      ≡ waits_of a queue
unfolding retain
expire_counts a now [] = omega arith
expire_counts a now (q ∷ queue) = ground (arith, expire_counts a now queue)

expire_rest :
    (now : Duration) (queue : List Queued)
    → All (λ q. now < q.deadline) (retain (λ q. not (leb q.deadline now)) queue)
expire_rest now queue =
    All-map (λ q h. ground arith) _ (retain-passes (λ q. not (leb q.deadline now)) queue)

expire_due :
    (now : Duration) (queue : List Queued)
    → All (λ q. q.deadline ≤ now) (retain (λ q. leb q.deadline now) queue)
expire_due now queue =
    All-map (λ q h. ground arith) _ (retain-passes (λ q. leb q.deadline now) queue)

expire_none :
    (now : Duration) (queue : List Queued)
    → All (λ q. now < q.deadline) queue
    → retain (λ q. leb q.deadline now) queue ≡ []
unfolding retain
expire_none now [] h = refl
expire_none now (q ∷ queue) h = ground (arith, expire_none now queue h.1)

-- Those that are taken are due.
abbrev pub IsDue : Duration → List Queued → RunId → Type 0
IsDue now queue id = any (λ (q : Queued). q.id == id && leb q.deadline now) queue ≡ true

expire-IsDue :
    (now : Duration) (queue : List Queued)
    → All (IsDue now queue) (map (λ q. q.id) (retain (λ q. leb q.deadline now) queue))
unfolding retain any
expire-IsDue now [] = tt
expire-IsDue now (q ∷ queue) =
    let rest : All (IsDue now (q ∷ queue))
        (map (λ q. q.id) (retain (λ q. leb q.deadline now) queue)) =
      All-map (λ id h. ground (arith, h)) _ (expire-IsDue now queue) in
    elim (Bool-cases (leb q.deadline now)) [ inl e ↦ rw e (ground arith, rest) | inr e ↦ rw e rest ]

-- `expire` takes from the queue, and reports, exactly the requests whose deadline has come: those
-- reported and those left make up the queue, each as often as it stood there; each reported run has a
-- request that is due, and all requests that are left have a later deadline; the running runs are as
-- they were, and a second call at the same time reports none.
pub expire-partitions :
    (s : Scheduler) (now : Duration) (a : RunId)
    → let (t, ids) = expire s now in
      (count a ids + waits_of a t.queue ≡ waits_of a s.queue)
      × All (IsDue now s.queue) ids
      × All (λ q. now < q.deadline) t.queue
      × (t.running ≡ s.running)
      × ((expire t now).1 ≡ [])
unfolding expire
expire-partitions s now a = (
  expire_counts a now s.queue,
  expire-IsDue now s.queue,
  expire_rest now s.queue,
  refl,
  ap (map (λ q. q.id)) (expire_none now _ (expire_rest now s.queue)),
)

pub cancel_counts :
    (a id : RunId) (queue : List Queued)
    → waits_of a (retain (λ q. not (q.id == id)) queue) ≡ (if a == id then 0 else waits_of a queue)
unfolding retain
cancel_counts a id [] = ground arith
cancel_counts a id (q ∷ queue) = ground (arith, cancel_counts a id queue)

pub cancel_found :
    (id : RunId) (queue : List Queued)
    → length (retain (λ q. not (q.id == id)) queue) + waits_of id queue ≡ length queue
unfolding retain
cancel_found id [] = omega arith
cancel_found id (q ∷ queue) = ground (arith, cancel_found id queue)

-- `cancel_queued` takes every request of the run from the queue and no other, and answers whether
-- there was one.
cancel_queued-removes :
    (s : Scheduler) (id a : RunId)
    → let (t, found) = cancel_queued s id in
      (waits_of a t.queue ≡ (if a == id then 0 else waits_of a s.queue))
      × (found ≡ ltb 0 (waits_of id s.queue))
      × (t.running ≡ s.running)
unfolding cancel_queued
cancel_queued-removes s id a =
    (cancel_counts a id s.queue, ground (arith, cancel_found id s.queue), refl)
