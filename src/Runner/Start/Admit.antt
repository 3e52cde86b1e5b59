-- ===== src/Runner/Start/Admit.antt =====
-- `admit` of src/runner/mod.rs keeps the registry in balance.
use wyd.Common.{
  ℕ, ◌+◌, ◌≡◌, refl, ◌∙◌, subst, inl, inr, true, false, Option, none, some, [], ◌∷◌, ◌==◌, ==_iff,
  ltb, leb, unwrap_or, length, total-append, Bool-cases, All-append, arith, String, any, any-append,
}
use wyd.Run.{spawn_failed}
use wyd.Scheduler.{
  Scheduler, RunId, Duration, duration_max, RejectReason, Admission, start as starts_now, queued,
  rejected, submit, can_admit,
}
use wyd.Scheduler.View.{Reason}
use wyd.Scheduler.Conservation.{same_id, runs_of, waits_of, count}
use wyd.Store.{no_logs}
use wyd.Runner.Queue.{RunSlot, finish, unstarted, Supervisor}
use wyd.Runner.Queue.Ends.{Gone, finish-Gone, update_slot-Gone}
use wyd.Runner.Start.{System, new_slot, decide, register}
use wyd.Runner.Start.Balance.{slots_of, Counts, registered-slots_of}
use wyd.Runner.Start.Ends.{Sound, finish-Sound, flag-Sound, close-one, close-other}

-- What an answer of `submit` says of the scheduler that comes with it.
abbrev pub Effect : RunId → Scheduler → Scheduler → Admission → Type 0
Effect id s t (starts_now _) =
    (a : RunId)
    → (runs_of a t.running ≡ runs_of a s.running + same_id id a)
      × (waits_of a t.queue ≡ waits_of a s.queue)
Effect id s t (queued _) =
    (a : RunId)
    → (runs_of a t.running ≡ runs_of a s.running)
      × (waits_of a t.queue ≡ waits_of a s.queue + same_id id a)
Effect id s t (rejected _) = s ≡ t

abbrev pub Effects : RunId → Scheduler → Option (Scheduler × Admission) → Type 0
Effects id s none = Unit
Effects id s (some (t, decision)) = Effect id s t decision

pub submit-Effects :
    (s : Scheduler) (id : RunId) (project : String) (m : ℕ) (timeout : Option Duration)
    (now : Duration)
    → Effects id s (submit s id project m timeout now)
unfolding submit
submit-Effects s id project m timeout now = elim (Bool-cases (ltb s.memory_budget_bytes m)) [
  | inl big ↦ rw big refl
  | inr possible ↦ elim (Bool-cases (can_admit s project m)) [
    | inl c ↦ rw (possible, c) (λ a. (total-append _ s.running (_ ∷ []) ∙ omega arith, refl))
    | inr c ↦ elim (Bool-cases (leb s.max_queued (length s.queue))) [
      | inl over ↦ rw (possible, c, over) refl
      | inr room ↦ elim (Bool-cases (ltb duration_max (now + unwrap_or timeout s.queue_timeout))) [
        | inl panics ↦ rw (possible, c, room, panics) tt
        | inr fine ↦
            rw (possible, c, room, fine)
              (λ a. (refl, total-append _ s.queue (_ ∷ []) ∙ omega arith))
      ]
    ]
  ]
]

-- A run that has left the registry, or never was there, in numbers.
Gone-slots : (a : RunId) (v : Supervisor) → Gone a 0 v → slots_of a v.registry ≡ 0
Gone-slots a v (absent, _) = ground (arith, registered-slots_of a v.registry)

-- The counts of the runs when one of them is new.
new-Counts :
    (id a : RunId) (slots runs waits spawned : ℕ)
    → ((id == a) ≡ true → (slots ≡ 0) × (spawned ≡ 0))
    → Counts slots runs waits 0 spawned
    → Counts (slots + (same_id id a + 0)) runs waits (same_id id a + 0) spawned
new-Counts id a slots runs waits spawned fresh (one, sum, few, worker) =
    elim (Bool-cases (id == a)) [
      | inl e ↦ let (absent, idle) = fresh e in rw e (omega arith, omega arith, few, omega arith)
      | inr e ↦ rw e (omega arith, omega arith, few, omega arith)
    ]

pub register-Sound :
    (id : RunId) (wall : ℕ) (s : System)
    → Sound [] s.supervisor
    → Gone id 0 s.supervisor
    → Sound (id ∷ []) (register id wall s).supervisor
register-Sound id wall s (balanced, live) gone = (
  λ a.
      rw (total-append (λ (x : RunSlot). same_id x.id a) s.supervisor.registry (new_slot id ∷ [])) (
        new-Counts id a _ _ _ _
          (λ e.
            let same = (==_iff id a).0 e in
            (
              subst (λ i. slots_of i s.supervisor.registry ≡ 0) same
                  (Gone-slots id s.supervisor gone),
              subst (λ i. count i s.supervisor.spawned ≡ 0) same gone.1,
            ))
          (balanced a)),
  All-append _ s.supervisor.registry (new_slot id ∷ []) live (refl, tt),
)

pub register-Gone :
    (id a : RunId) (wall : ℕ) (s : System)
    → (id == a) ≡ false
    → Gone a 0 s.supervisor
    → Gone a 0 (register id wall s).supervisor
unfolding any
register-Gone id a wall s n (absent, idle) = (
  any-append (λ (x : RunSlot). x.id == a) s.supervisor.registry (new_slot id ∷ []) ∙ ground arith,
  idle,
)

-- What `admit` leaves of a slot that has just been registered.
module _ (id : RunId) (now : Duration) (wall : ℕ) (queued_text : ℕ → Option Reason → String)
    (refused_text : RejectReason → String) (s : System) where
  abbrev pub decided : Scheduler → Admission → Supervisor
  decided t decision =
      (decide queued_text refused_text (new_slot id) now wall decision
        (record s { supervisor = record s.supervisor { scheduler = t } })).0.supervisor

  pub decide-Sound :
      (t : Scheduler) (decision : Admission)
      → Sound (id ∷ []) s.supervisor
      → Effect id s.supervisor.scheduler t decision
      → Sound [] (decided t decision)
  unfolding decide
  decide-Sound t (starts_now _) (balanced, live) effect = (
    λ a.
        let (one, sum, few, worker) = balanced a in
        let (runs, waits) = effect a in
        let put = total-append (λ i. same_id i a) s.supervisor.spawned (id ∷ []) in
        (
          one,
          omega (arith, sum, runs, waits),
          omega (arith, few, runs, put),
          omega (arith, worker, runs, put),
        ),
    live,
  )
  decide-Sound t (queued _) (balanced, live) effect =
      flag-Sound id _ (record s.supervisor { scheduler = t }) (λ x. refl) (λ x k. k)
        (
          λ a.
              let (one, sum, few, worker) = balanced a in
              let (runs, waits) = effect a in
              (
                one,
                omega (arith, sum, runs, waits),
                omega (arith, few, runs),
                omega (arith, worker, runs),
              ),
          live,
        )
  decide-Sound t (rejected reason) (balanced, live) effect =
      let (idle, unlisted, once, here) = close-one id [] s.supervisor (balanced id) in
      subst
        (λ u. Sound [] (
          finish (new_slot id) (unstarted spawn_failed (refused_text reason) wall) no_logs now
            (record s.supervisor { scheduler = u })))
        effect
        (finish-Sound [] s.supervisor (new_slot id) _ no_logs now (refl, idle, refl, once)
          (λ b n. close-other id [] s.supervisor b n (balanced b)) live)

  pub decide-Gone :
      (t : Scheduler) (decision : Admission) (a : RunId)
      → (id == a) ≡ false
      → Gone a 0 s.supervisor
      → Gone a 0 (decided t decision)
  unfolding decide
  decide-Gone t (starts_now _) a n (absent, idle) = (
    absent,
    total-append (λ i. same_id i a) s.supervisor.spawned (id ∷ []) ∙ rw n (omega (arith, idle)),
  )
  decide-Gone t (queued _) a n gone = update_slot-Gone a id 0 _ _ (λ x. refl) gone
  decide-Gone t (rejected reason) a n gone = finish-Gone (new_slot id) _ no_logs now a 0 _ gone
