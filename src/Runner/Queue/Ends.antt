-- ===== src/Runner/Queue/Ends.antt =====
-- A run of src/runner/mod.rs that has left the registry is never started.
use wyd.Common.{
  ℕ, ◌+◌, ◌≡◌, refl, ap, ◌∙◌, subst, inl, inr, true, false, not, none, some, List, [], ◌∷◌, ◌++◌,
  ◌==◌, ==_iff, retain, find?, any, update_where, Bool-cases, arith, total-append,
}
use wyd.Logs.{LogState}
use wyd.Run.{is_terminal, timed_out, cancelled, queued}
use wyd.Scheduler.{RunId, Duration, cancel_queued, expire}
use wyd.Scheduler.Conservation.{count}
use wyd.Store.{RunResult}
use wyd.Store.Persist.{Write}
use wyd.Runner
use wyd.Runner.Queue.{
  RunSlot, Supervisor, is_registered, update_slot, spawn_one, expire_slot, is_queued, unstarted,
  spawn_admitted, finish, expire_slots, queue_tick, cancel_slot, cancel,
}

-- Not in the registry, and its worker started so many times.
abbrev pub Gone : RunId → ℕ → Supervisor → Type 0
Gone id n v = (is_registered id v.registry ≡ false) × (count id v.spawned ≡ n)

update-registered :
    (a b : RunId) (f : RunSlot → RunSlot) (slots : List RunSlot)
    → ((s : RunSlot) → (f s).id ≡ s.id)
    → is_registered a (update_where (λ s. s.id == b) f slots) ≡ is_registered a slots
unfolding update_where any
update-registered a b f [] h = refl
update-registered a b f (s ∷ slots) h = elim (Bool-cases (s.id == b)) [
  | inl e ↦ rw (e, h s, update-registered a b f slots h) refl
  | inr e ↦ rw (e, update-registered a b f slots h) refl
]

pub update_slot-Gone :
    (id b : RunId) (n : ℕ) (f : RunSlot → RunSlot) (v : Supervisor)
    → ((s : RunSlot) → (f s).id ≡ s.id)
    → Gone id n v
    → Gone id n (update_slot b f v)
unfolding update_slot
update_slot-Gone id b n f v same h = (update-registered id b f v.registry same ∙ h.0, h.1)

registered-same :
    (a b : RunId) (slots : List RunSlot)
    → is_registered a slots ≡ false
    → is_registered b slots ≡ true
    → (b == a) ≡ false
registered-same a b slots h k = elim (Bool-cases (b == a)) [
  | inl e ↦ absurd (
      let at : is_registered a slots ≡ true =
        subst (λ i. is_registered i slots ≡ true) ((==_iff b a).0 e) k in
      cc)
  | inr e ↦ e
]

spawn_one-Gone : (id a : RunId) (n : ℕ) (v : Supervisor) → Gone id n v → Gone id n (spawn_one a v)
unfolding spawn_one
spawn_one-Gone id a n v h = elim (Bool-cases (is_registered a v.registry)) [
  | inl e ↦
      let (gone, _) = update_slot-Gone id a n _ v (λ s. refl) h in
      let other = registered-same id a v.registry h.0 e in
      rw e (gone, total-append _ v.spawned (a ∷ []) ∙ rw other (omega (arith, h.1)))
  | inr e ↦ rw e h
]

spawn_admitted-Gone :
    (ids : List RunId) (id : RunId) (n : ℕ) (v : Supervisor)
    → Gone id n v
    → Gone id n (spawn_admitted ids v)
unfolding spawn_admitted
spawn_admitted-Gone [] id n v h = h
spawn_admitted-Gone (a ∷ ids) id n v h =
    spawn_admitted-Gone ids id n (spawn_one a v) (spawn_one-Gone id a n v h)

retain-Gone :
    (id b : RunId) (slots : List RunSlot)
    → is_registered id slots ≡ false
    → is_registered id (retain (λ s. not (s.id == b)) slots) ≡ false
unfolding any retain
retain-Gone id b [] h = refl
retain-Gone id b (s ∷ slots) h = ground (arith, retain-Gone id b slots)

removed :
    (id : RunId) (slots : List RunSlot)
    → is_registered id (retain (λ s. not (s.id == id)) slots) ≡ false
unfolding any retain
removed id [] = refl
removed id (s ∷ slots) = ground (arith, removed id slots)

pub finish-Gone :
    (slot : RunSlot) (result : RunResult) (logs : LogState) (now : Duration) (id : RunId) (n : ℕ)
    (v : Supervisor)
    → Gone id n v
    → Gone id n (finish slot result logs now v)
unfolding finish
finish-Gone slot result logs now id n v h = elim (Bool-cases (is_terminal slot.inner.state)) [
  | inl e ↦ rw e h
  | inr e ↦ rw e (spawn_admitted-Gone _ id n _ (retain-Gone id slot.id v.registry h.0, h.1))
]

expire_slot-Gone :
    (a : RunId) (now : Duration) (wall : ℕ) (id : RunId) (n : ℕ) (v : Supervisor)
    → Gone id n v
    → Gone id n (expire_slot a now wall v)
unfolding expire_slot
expire_slot-Gone a now wall id n v h =
    elim (find? (λ s. s.id == a) v.registry)
      as (λ o. Gone id n (elim o [
        | none ↦ v
        | some slot ↦
            finish slot (unstarted timed_out "queue timeout: waited for a slot too long" wall)
              slot.logs now v
      ])) [ none ↦ h | some slot ↦ finish-Gone slot _ slot.logs now id n v h ]

pub expire_slots-Gone :
    (ids : List RunId) (now : Duration) (wall : ℕ) (id : RunId) (n : ℕ) (v : Supervisor)
    → Gone id n v
    → Gone id n (expire_slots ids now wall v)
unfolding expire_slots
expire_slots-Gone [] now wall id n v h = h
expire_slots-Gone (a ∷ ids) now wall id n v h =
    expire_slots-Gone ids now wall id n (expire_slot a now wall v)
      (expire_slot-Gone a now wall id n v h)

pub cancel_slot-Gone :
    (slot : RunSlot) (now : Duration) (wall : ℕ) (id : RunId) (n : ℕ) (v : Supervisor)
    → Gone id n v
    → Gone id n (cancel_slot slot now wall v)
unfolding cancel_slot
cancel_slot-Gone slot now wall id n v h = elim (Bool-cases (is_terminal slot.inner.state)) [
  | inl e ↦ rw e h
  | inr e ↦ elim (Bool-cases (is_queued slot.inner.state)) [
    | inr q ↦ rw (e, q) (update_slot-Gone id slot.id n _ v (λ s. refl) h)
    | inl q ↦ elim (Bool-cases (cancel_queued v.scheduler slot.id).1) [
      | inl f ↦ rw (e, q, f) (finish-Gone slot _ slot.logs now id n _ h)
      | inr f ↦ rw (e, q, f) (update_slot-Gone id slot.id n _ _ (λ s. refl) h)
    ]
  ]
]

-- A worker that finishes its run, a turn of the clock of the queue, or a cancellation.
pub data Step : Type 0 where
  ends : RunSlot → RunResult → LogState → Duration → Step
  ticks : Duration → ℕ → Step
  cancels : RunId → Duration → ℕ → Step

unfoldable pub step : Step → Supervisor → Supervisor
step (ends slot result logs now) v = finish slot result logs now v
step (ticks now wall) v = queue_tick now wall v
step (cancels id now wall) v = cancel id now wall v

unfoldable pub steps : List Step → Supervisor → Supervisor
steps [] v = v
steps (s ∷ ss) v = steps ss (step s v)

step-Gone : (s : Step) (id : RunId) (n : ℕ) (v : Supervisor) → Gone id n v → Gone id n (step s v)
unfolding step queue_tick cancel
step-Gone (ends slot result logs now) id n v h = finish-Gone slot result logs now id n v h
step-Gone (ticks now wall) id n v h =
    expire_slots-Gone (expire v.scheduler now).1 now wall id n
      (record v { scheduler = (expire v.scheduler now).0 }) h
step-Gone (cancels a now wall) id n v h =
    elim (find? (λ s. s.id == a) v.registry)
      as (λ o. Gone id n (elim o [ none ↦ v | some slot ↦ cancel_slot slot now wall v ])) [
        | none ↦ h
        | some slot ↦ cancel_slot-Gone slot now wall id n v h
      ]

steps-Gone :
    (ss : List Step) (id : RunId) (n : ℕ) (v : Supervisor) → Gone id n v → Gone id n (steps ss v)
unfolding steps
steps-Gone [] id n v h = h
steps-Gone (s ∷ ss) id n v h = steps-Gone ss id n (step s v) (step-Gone s id n v h)

spawn_admitted-writes :
    (ids : List RunId) (v : Supervisor) → (spawn_admitted ids v).writes ≡ v.writes
unfolding spawn_admitted spawn_one update_slot
spawn_admitted-writes [] v = refl
spawn_admitted-writes (a ∷ ids) v =
    spawn_admitted-writes ids (spawn_one a v)
    ∙ elim (Bool-cases (is_registered a v.registry)) [ inl e ↦ rw e refl | inr e ↦ rw e refl ]

spawn_admitted-others :
    (ids : List RunId) (id : RunId) (v : Supervisor)
    → is_registered id v.registry ≡ false
    → Gone id (count id v.spawned) (spawn_admitted ids v)
spawn_admitted-others ids id v h = spawn_admitted-Gone ids id (count id v.spawned) v (h, refl)

finish-Finished :
    (slot : RunSlot) (result : RunResult) (logs : LogState) (now : Duration) (v : Supervisor)
    → is_terminal slot.inner.state ≡ false
    → ((finish slot result logs now v).writes
        ≡ v.writes ++ (slot.id, Write.finish (slot.inner.revision + 1) result logs) ∷ [])
      × Gone slot.id (count slot.id v.spawned) (finish slot result logs now v)
unfolding finish Runner.finish
finish-Finished slot result logs now v h =
    rw h (spawn_admitted-writes _ _, spawn_admitted-others _ slot.id _ (removed slot.id v.registry))

cancel_slot-finish :
    (slot : RunSlot) (now : Duration) (wall : ℕ) (v : Supervisor)
    → slot.inner.state ≡ queued
    → (cancel_queued v.scheduler slot.id).1 ≡ true
    → cancel_slot slot now wall v
      ≡ finish slot
          (unstarted cancelled "cancelled while queued" wall)
          slot.logs
          now
          (record v { scheduler = (cancel_queued v.scheduler slot.id).0 })
unfolding cancel_slot
cancel_slot-finish slot now wall v waits removable = rw (waits, removable) refl

cancel-found :
    (id : RunId) (now : Duration) (wall : ℕ) (slot : RunSlot) (v : Supervisor)
    → find? (λ s. s.id == id) v.registry ≡ some slot
    → cancel id now wall v ≡ cancel_slot slot now wall v
unfolding cancel
cancel-found id now wall slot v found =
    ap (λ o. elim o as (λ _. Supervisor) [ none ↦ v | some s ↦ cancel_slot s now wall v ]) found

-- A run that is cancelled while it waits in the queue ends there: the cancellation sends the finish of
-- the run, with the outcome `cancelled` and the next revision, and no other write, and takes the
-- run from the registry. Its worker is not started, by the cancellation or by whatever runs end,
-- expire or are cancelled after it.
pub cancel-ends :
    (v : Supervisor) (id : RunId) (slot : RunSlot) (now : Duration) (wall : ℕ) (later : List Step)
    → find? (λ s. s.id == id) v.registry ≡ some slot
    → slot.inner.state ≡ queued
    → (cancel_queued v.scheduler slot.id).1 ≡ true
    → let after = cancel id now wall v in
      (after.writes
        ≡ v.writes
          ++ (
            slot.id,
            Write.finish
                (slot.inner.revision + 1)
                (unstarted cancelled "cancelled while queued" wall)
                slot.logs,
          )
            ∷ [])
      × (is_registered slot.id (steps later after).registry ≡ false)
      × (count slot.id (steps later after).spawned ≡ count slot.id v.spawned)
cancel-ends v id slot now wall later found waits removable =
    let same =
      cancel-found id now wall slot v found ∙ cancel_slot-finish slot now wall v waits removable in
    let (sent, gone) =
      finish-Finished slot (unstarted cancelled "cancelled while queued" wall) slot.logs now
        (record v { scheduler = (cancel_queued v.scheduler slot.id).0 }) (ap is_terminal waits) in
    let (left, idle) = steps-Gone later slot.id _ _ gone in rw same (sent, left, idle)
