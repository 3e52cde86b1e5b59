-- ===== src/Runner/Start/Ends.antt =====
-- What ends a run in src/runner/mod.rs keeps the registry in balance: its worker, a cancellation, and
-- the clock of the queue.
use wyd.Common.{
  ℕ, ◌≤◌, ◌≡◌, refl, ap, ◌∙◌, sym, subst, inl, inr, true, false, Option, none, some, List, [], ◌∷◌,
  ◌++◌, ◌==◌, ==_iff, ltb, if◌then◌else◌, find?, any, map, Bool-cases, All, arith,
}
use wyd.Logs.{LogState}
use wyd.Run.{is_terminal, timed_out}
use wyd.Scheduler.{RunId, Duration, cancel_queued, expire}
use wyd.Scheduler.Conservation.{waits_of, count}
use wyd.Scheduler.Waiting.{expire_counts, cancel_counts, cancel_found}
use wyd.Store.{RunResult, RunStep}
use wyd.Runner
use wyd.Runner.Queue.{
  RunSlot, unstarted, Supervisor, is_queued, update_slot, finish, expire_slot, expire_slots,
  queue_tick, cancel_slot, cancel, cancel_each, move_run, exit_run,
}
use wyd.Runner.Start.Balance.{
  slots_of, Balanced, Live, Ending, slots_of-update, finish-Balanced, finish-Live, update-Live,
}

-- In balance, with all slots open.
abbrev pub Sound : List RunId → Supervisor → Type 0
Sound closing v = ((a : RunId) → Balanced closing v a) × Live v

find-slot :
    (id : RunId) (slots : List RunSlot) (slot : RunSlot)
    → All (λ s. is_terminal s.inner.state ≡ false) slots
    → find? (λ s. s.id == id) slots ≡ some slot
    → ((slot.id == id) ≡ true) × (is_terminal slot.inner.state ≡ false)
unfolding find?
find-slot id [] slot h e = absurd (cc)
find-slot id (s ∷ slots) slot h e = elim (Bool-cases (s.id == id)) [
  | inl hit ↦
      let found : find? (λ x. x.id == id) (s ∷ slots) ≡ some s = rw hit refl in
      subst
        (λ o. elim o as (λ _. Type 0) [
          | none ↦ Unit
          | some x ↦ ((x.id == id) ≡ true) × (is_terminal x.inner.state ≡ false)
        ])
        (sym found ∙ e) (hit, h.0)
  | inr miss ↦
      let rest : find? (λ x. x.id == id) (s ∷ slots) ≡ find? (λ x. x.id == id) slots =
        rw miss refl in
      find-slot id slots slot h.1 (sym rest ∙ e)
]

find-none :
    (id : RunId) (slots : List RunSlot)
    → find? (λ s. s.id == id) slots ≡ none
    → slots_of id slots ≡ 0
unfolding find?
find-none id [] e = refl
find-none id (s ∷ slots) e = ground (arith, find-none id slots)

-- What a call does that looks its slot up.
pub at_slot :
    (P : Supervisor → Type 0) (id : RunId) (v : Supervisor) (f : RunSlot → Supervisor)
    → (slots_of id v.registry ≡ 0 → P v)
    → Live v
    → ((slot : RunSlot) → slot.id ≡ id → is_terminal slot.inner.state ≡ false → P (f slot))
    → P (elim (find? (λ s. s.id == id) v.registry) [ none ↦ v | some slot ↦ f slot ])
at_slot P id v f absent live present = go _ refl
  where
    go :
        (o : Option RunSlot)
        → find? (λ s. s.id == id) v.registry ≡ o
        → P (elim o [ none ↦ v | some slot ↦ f slot ])
    go none e = absent (find-none id v.registry e)
    go (some slot) e =
        let (hit, open_slot) = find-slot id v.registry slot live e in
        present slot ((==_iff slot.id id).0 hit) open_slot

-- The counts of a run that may end.
ending :
    (closing : List RunId) (v : Supervisor) (slot : RunSlot)
    → is_terminal slot.inner.state ≡ false
    → waits_of slot.id v.scheduler.queue ≡ 0
    → count slot.id closing ≡ 0
    → Balanced closing v slot.id
    → Ending closing v slot
ending closing v slot live idle unlisted (one, sum, few, worker) =
    (live, idle, unlisted, omega arith)

pub finish-Sound :
    (closing : List RunId) (v : Supervisor) (slot : RunSlot) (result : RunResult) (logs : LogState)
    (now : Duration)
    → Ending closing v slot
    → ((b : RunId) → (b == slot.id) ≡ false → Balanced closing v b)
    → Live v
    → Sound closing (finish slot result logs now v)
finish-Sound closing v slot result logs now ends others live = (
  finish-Balanced closing v slot result logs now ends others,
  finish-Live slot result logs now v live,
)

any-count : (id : RunId) (ids : List RunId) → any (λ i. i == id) ids ≡ ltb 0 (count id ids)
unfolding any
any-count id [] = refl
any-count id (i ∷ ids) = ground (arith, any-count id ids)

-- A run with a worker does not wait.
working-idle :
    (v : Supervisor) (id : RunId)
    → any (λ i. i == id) v.spawned ≡ true
    → Balanced [] v id
    → waits_of id v.scheduler.queue ≡ 0
working-idle v id w (one, sum, few, worker) = ground (arith, any-count id v.spawned)

pub exit_run-Sound :
    (id : RunId) (result : RunResult) (logs : LogState) (now : Duration) (v : Supervisor)
    → Sound [] v
    → Sound [] (exit_run id result logs now v)
unfolding exit_run
exit_run-Sound id result logs now v (balanced, live) =
    at_slot (Sound []) id v
      (λ slot. if any (λ i. i == id) v.spawned then finish slot result logs now v else v)
      (λ _. (balanced, live)) live
      (λ slot same open_slot. elim (Bool-cases (any (λ i. i == id) v.spawned)) [
        | inl w ↦ rw w (
            finish-Sound [] v slot result logs now
              (ending [] v slot open_slot (working-idle v slot.id (rw same w) (balanced slot.id))
                refl (balanced slot.id))
              (λ b _. balanced b) live)
        | inr w ↦ rw w (balanced, live)
      ])

pub flag-Sound :
    (id : RunId) (f : RunSlot → RunSlot) (v : Supervisor)
    → ((s : RunSlot) → (f s).id ≡ s.id)
    → ((s : RunSlot) → is_terminal s.inner.state ≡ false → is_terminal (f s).inner.state ≡ false)
    → Sound [] v
    → Sound [] (update_slot id f v)
unfolding update_slot
flag-Sound id f v same keep (balanced, live) =
    (λ a. rw (slots_of-update a id f v.registry same) (balanced a), update-Live id f v keep live)

pub move_run-Sound :
    (id : RunId) (step : RunStep) (wall : ℕ) (v : Supervisor)
    → is_terminal step.state ≡ false
    → Sound [] v
    → Sound [] (move_run id step wall v)
unfolding move_run
move_run-Sound id step wall v moves (balanced, live) =
    let f : RunSlot → RunSlot = λ s. record s { inner = (Runner.transition s.inner step wall).0 } in
    at_slot (Sound []) id v
      (λ slot.
        if any (λ i. i == id) v.spawned
        then record (update_slot id f v) {
          writes = v.writes ++ map (λ w. (id, w)) (Runner.transition slot.inner step wall).1;
        }
        else v)
      (λ _. (balanced, live)) live
      (λ slot same open_slot. elim (Bool-cases (any (λ i. i == id) v.spawned)) [
        | inl w ↦ rw w (
            flag-Sound id f v (λ s. refl) (λ s k. unfold Runner.transition in rw k moves)
              (balanced, live))
        | inr w ↦ rw w (balanced, live)
      ])

-- The scheduler without the run in its queue, and the others as they were.
abbrev dropped : RunId → Supervisor → Supervisor
dropped id v = record v { scheduler = (cancel_queued v.scheduler id).0 }

dropped-Balanced :
    (id : RunId) (v : Supervisor) (a : RunId)
    → waits_of a (dropped id v).scheduler.queue ≡ waits_of a v.scheduler.queue
    → Balanced [] v a
    → Balanced [] (dropped id v) a
unfolding cancel_queued
dropped-Balanced id v a same (one, sum, few, worker) = (one, omega (arith, same), few, worker)

dropped-other :
    (id : RunId) (v : Supervisor) (a : RunId)
    → (a == id) ≡ false
    → waits_of a (dropped id v).scheduler.queue ≡ waits_of a v.scheduler.queue
unfolding cancel_queued
dropped-other id v a e = cancel_counts a id v.scheduler.queue ∙ rw e refl

dropped-none :
    (id : RunId) (v : Supervisor) (a : RunId)
    → (cancel_queued v.scheduler id).1 ≡ false
    → waits_of a (dropped id v).scheduler.queue ≡ waits_of a v.scheduler.queue
unfolding cancel_queued
dropped-none id v a n = elim (Bool-cases (a == id)) [
  | inl e ↦
      let gone : waits_of id v.scheduler.queue ≡ 0 =
        ground (arith, cancel_found id v.scheduler.queue) in
      cancel_counts a id v.scheduler.queue
      ∙ rw e (sym (ap (λ i. waits_of i v.scheduler.queue) ((==_iff a id).0 e) ∙ gone))
  | inr e ↦ cancel_counts a id v.scheduler.queue ∙ rw e refl
]

dropped-Ending :
    (v : Supervisor) (slot : RunSlot)
    → is_terminal slot.inner.state ≡ false
    → Balanced [] v slot.id
    → Ending [] (dropped slot.id v) slot
unfolding cancel_queued
dropped-Ending v slot t (one, sum, few, worker) =
    (t, cancel_counts slot.id slot.id v.scheduler.queue ∙ ground arith, refl, omega arith)

cancel_slot-Sound :
    (slot : RunSlot) (now : Duration) (wall : ℕ) (v : Supervisor)
    → Sound [] v
    → Sound [] (cancel_slot slot now wall v)
unfolding cancel_slot
cancel_slot-Sound slot now wall v (balanced, live) =
    elim (Bool-cases (is_terminal slot.inner.state)) [
      | inl t ↦ rw t (balanced, live)
      | inr t ↦ elim (Bool-cases (is_queued slot.inner.state)) [
        | inr q ↦ rw (t, q) (flag-Sound slot.id _ v (λ s. refl) (λ s k. k) (balanced, live))
        | inl q ↦ elim (Bool-cases (cancel_queued v.scheduler slot.id).1) [
          | inl found ↦
              rw (t, q, found)
                (finish-Sound [] (dropped slot.id v) slot _ slot.logs now
                  (dropped-Ending v slot t (balanced slot.id))
                  (λ b n. dropped-Balanced slot.id v b (dropped-other slot.id v b n) (balanced b))
                  live)
          | inr found ↦
              rw (t, q, found)
                (flag-Sound slot.id _ (dropped slot.id v) (λ s. refl) (λ s k. k)
                  (
                    λ b. dropped-Balanced slot.id v b (dropped-none slot.id v b found) (balanced b),
                    live,
                  ))
        ]
      ]
    ]

pub cancel-Sound :
    (id : RunId) (now : Duration) (wall : ℕ) (v : Supervisor)
    → Sound [] v
    → Sound [] (cancel id now wall v)
unfolding cancel
cancel-Sound id now wall v h =
    at_slot (Sound []) id v (λ slot. cancel_slot slot now wall v) (λ _. h) h.1
      (λ slot _ _. cancel_slot-Sound slot now wall v h)

pub cancel_each-Sound :
    (slots : List RunSlot) (now : Duration) (wall : ℕ) (v : Supervisor)
    → Sound [] v
    → Sound [] (cancel_each slots now wall v)
unfolding cancel_each
cancel_each-Sound [] now wall v h = h
cancel_each-Sound (slot ∷ slots) now wall v h =
    cancel_each-Sound slots now wall (cancel slot.id now wall v) (cancel-Sound slot.id now wall v h)

-- The first of the runs that are to be closed is closed.
pub close-one :
    (id : RunId) (closing : List RunId) (v : Supervisor)
    → Balanced (id ∷ closing) v id
    → (waits_of id v.scheduler.queue ≡ 0)
      × (count id closing ≡ 0)
      × (count id v.spawned ≤ 1)
      × (slots_of id v.registry ≡ 1)
close-one id closing v (one, sum, few, worker) = ground arith

pub close-other :
    (id : RunId) (closing : List RunId) (v : Supervisor) (b : RunId)
    → (b == id) ≡ false
    → Balanced (id ∷ closing) v b
    → Balanced closing v b
close-other id closing v b n (one, sum, few, worker) = (one, ground arith, few, worker)

expire_slot-Sound :
    (id : RunId) (closing : List RunId) (now : Duration) (wall : ℕ) (v : Supervisor)
    → Sound (id ∷ closing) v
    → Sound closing (expire_slot id now wall v)
unfolding expire_slot
expire_slot-Sound id closing now wall v (balanced, live) =
    let (idle, unlisted, once, here) = close-one id closing v (balanced id) in
    at_slot (Sound closing) id v
      (λ slot.
        finish slot (unstarted timed_out "queue timeout: waited for a slot too long" wall) slot.logs
          now v)
      (λ none. absurd (omega (arith, none, here))) live
      (λ slot same t.
        finish-Sound closing v slot _ slot.logs now
          (t, rw same idle, rw same unlisted, rw same once)
          (λ b n. close-other id closing v b (sym (ap (λ i. b == i) same) ∙ n) (balanced b)) live)

expire_slots-Sound :
    (ids : List RunId) (now : Duration) (wall : ℕ) (v : Supervisor)
    → Sound ids v
    → Sound [] (expire_slots ids now wall v)
unfolding expire_slots
expire_slots-Sound [] now wall v h = h
expire_slots-Sound (id ∷ ids) now wall v h =
    expire_slots-Sound ids now wall (expire_slot id now wall v)
      (expire_slot-Sound id ids now wall v h)

pub queue_tick-Sound :
    (now : Duration) (wall : ℕ) (v : Supervisor) → Sound [] v → Sound [] (queue_tick now wall v)
unfolding queue_tick expire
queue_tick-Sound now wall v (balanced, live) =
    expire_slots-Sound (expire v.scheduler now).1 now wall
      (record v { scheduler = (expire v.scheduler now).0 })
      (
        λ a.
            let (one, sum, few, worker) = balanced a in
            (one, omega (arith, sum, expire_counts a now v.scheduler.queue), few, worker),
        live,
      )
