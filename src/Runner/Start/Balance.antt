-- ===== src/Runner/Start/Balance.antt =====
-- The registry of src/runner/mod.rs against the scheduler's lists: what `finish` keeps of it.
use wyd.Common.{
  ℕ, ◌+◌, ◌≤◌, ◌≡◌, refl, ap, ◌∙◌, sym, subst, inl, inr, Bool, true, false, not, List, [], ◌∷◌,
  ◌++◌, ◌==◌, ==_iff, ltb, if◌then◌else◌, retain, any, update_where, total, total-append,
  Bool-cases, map, All, update_where-All, retain-All, arith,
}
use wyd.Logs.{LogState}
use wyd.Run.{is_terminal}
use wyd.Scheduler.{Scheduler, RunId, Duration, release}
use wyd.Scheduler.Conservation.{same_id, runs_of, waits_of, count, release-moves}
use wyd.Store.{RunResult}
use wyd.Runner
use wyd.Runner.Queue.{
  RunSlot, Supervisor, is_registered, is_complete, update_slot, spawn_one, spawn_admitted, finish,
}

-- How many slots the registry has for a run.
abbrev pub slots_of : RunId → List RunSlot → ℕ
slots_of a = total (λ s. same_id s.id a)

-- A registered run has one slot, and either runs or waits, once, or is about to be finished; it has a
-- worker if and only if it runs. A run that has left the registry neither runs nor waits, and had one
-- worker at most.
abbrev pub Counts : (slots runs waits closing spawned : ℕ) → Type 0
Counts slots runs waits closing spawned =
    (slots ≤ 1) × (runs + waits + closing ≡ slots) × (runs ≤ spawned) × (spawned + slots ≤ 1 + runs)

abbrev pub Balanced : List RunId → Supervisor → RunId → Type 0
Balanced closing v a =
    Counts (slots_of a v.registry) (runs_of a v.scheduler.running) (waits_of a v.scheduler.queue)
      (count a closing) (count a v.spawned)

abbrev pub Live : Supervisor → Type 0
Live v = All (λ s. is_terminal s.inner.state ≡ false) v.registry

pub registered-slots_of :
    (a : RunId) (slots : List RunSlot) → is_registered a slots ≡ ltb 0 (slots_of a slots)
unfolding any
registered-slots_of a [] = refl
registered-slots_of a (s ∷ slots) = ground (arith, registered-slots_of a slots)

slots_of-retain :
    (a id : RunId) (slots : List RunSlot)
    → slots_of a (retain (λ s. not (s.id == id)) slots) ≡ (if a == id then 0 else slots_of a slots)
unfolding retain
slots_of-retain a id [] = ground arith
slots_of-retain a id (s ∷ slots) = ground (arith, slots_of-retain a id slots)

pub slots_of-update :
    (a b : RunId) (f : RunSlot → RunSlot) (slots : List RunSlot)
    → ((s : RunSlot) → (f s).id ≡ s.id)
    → slots_of a (update_where (λ s. s.id == b) f slots) ≡ slots_of a slots
unfolding update_where
slots_of-update a b f [] h = refl
slots_of-update a b f (s ∷ slots) h = elim (Bool-cases (s.id == b)) [
  | inl e ↦ rw (e, h s, slots_of-update a b f slots h) refl
  | inr e ↦ rw (e, slots_of-update a b f slots h) refl
]

spawn_one-effect :
    (id : RunId) (v : Supervisor) (a : RunId)
    → is_registered id v.registry ≡ true
    → (slots_of a (spawn_one id v).registry ≡ slots_of a v.registry)
      × (count a (spawn_one id v).spawned ≡ count a v.spawned + same_id id a)
      × ((spawn_one id v).scheduler ≡ v.scheduler)
unfolding spawn_one update_slot
spawn_one-effect id v a h = rw h (
  slots_of-update a id _ v.registry (λ s. refl),
  total-append (λ i. same_id i a) v.spawned (id ∷ []) ∙ omega arith,
  refl,
)

count-head : (id : RunId) (ids : List RunId) (n : ℕ) → count id (id ∷ ids) ≤ n → ltb 0 n ≡ true
count-head id ids n h = ground arith

spawn_admitted-effect :
    (ids : List RunId) (v : Supervisor) (a : RunId)
    → ((b : RunId) → count b ids ≤ slots_of b v.registry)
    → (slots_of a (spawn_admitted ids v).registry ≡ slots_of a v.registry)
      × (count a (spawn_admitted ids v).spawned ≡ count a v.spawned + count a ids)
      × ((spawn_admitted ids v).scheduler ≡ v.scheduler)
unfolding spawn_admitted
spawn_admitted-effect [] v a h = (refl, omega arith, refl)
spawn_admitted-effect (id ∷ ids) v a h =
    let here : is_registered id v.registry ≡ true =
      registered-slots_of id v.registry ∙ count-head id ids _ (h id) in
    let (slots, spawned, same) =
      spawn_admitted-effect ids (spawn_one id v) a
        (λ b. let (one, _, _) = spawn_one-effect id v b here in omega (arith, one, h b)) in
    let (slots₁, spawned₁, same₁) = spawn_one-effect id v a here in
    (slots ∙ slots₁, omega (arith, spawned, spawned₁), same ∙ same₁)

pub update-Live :
    (id : RunId) (f : RunSlot → RunSlot) (v : Supervisor)
    → ((s : RunSlot) → is_terminal s.inner.state ≡ false → is_terminal (f s).inner.state ≡ false)
    → Live v
    → Live (update_slot id f v)
unfolding update_slot
update-Live id f v keep h = update_where-All _ _ f v.registry (λ s _ k. keep s k) h

spawn_admitted-Live : (ids : List RunId) (v : Supervisor) → Live v → Live (spawn_admitted ids v)
unfolding spawn_admitted spawn_one
spawn_admitted-Live [] v h = h
spawn_admitted-Live (id ∷ ids) v h =
    spawn_admitted-Live ids (spawn_one id v) (elim (Bool-cases (is_registered id v.registry)) [
      | inl e ↦ rw e (update-Live id _ v (λ s k. k) h)
      | inr e ↦ rw e h
    ])

-- The counts of a run when the scheduler admits it so many times; `b` if it is the run that ends.
admitted-Counts :
    (b : Bool) (slots runs waits closing spawned admitted runs' waits' : ℕ)
    → admitted + waits' ≡ waits
    → runs' ≡ (if b then 0 else runs) + admitted
    → (b ≡ true → (waits ≡ 0) × (closing ≡ 0) × (spawned ≤ 1))
    → (b ≡ false → Counts slots runs waits closing spawned)
    → Counts (if b then 0 else slots) runs' waits' closing (spawned + admitted)
admitted-Counts true slots runs waits closing spawned admitted runs' waits' moved ran ending other =
    let (idle, unlisted, once) = ending refl in (omega arith, omega arith, omega arith, omega arith)
admitted-Counts false slots runs waits closing spawned admitted runs' waits' moved ran ending
      other =
    let (one, sum, few, worker) = other refl in (omega arith, omega arith, omega arith, omega arith)

-- A slot that ends: nothing else may be pending for its run.
abbrev pub Ending : List RunId → Supervisor → RunSlot → Type 0
Ending closing v slot =
    (is_terminal slot.inner.state ≡ false)
    × (waits_of slot.id v.scheduler.queue ≡ 0)
    × (count slot.id closing ≡ 0)
    × (count slot.id v.spawned ≤ 1)

module _ (closing : List RunId) (v : Supervisor) (slot : RunSlot) (result : RunResult)
    (logs : LogState) (now : Duration) (ending : Ending closing v slot)
    (others : (b : RunId) → (b == slot.id) ≡ false → Balanced closing v b) where
  released : Scheduler × List RunId
  released = release v.scheduler slot.id (not (is_complete result.cleanup)) now

  ended : Supervisor
  ended = record v {
    registry = retain (λ s. not (s.id == slot.id)) v.registry;
    scheduler = released.0;
    writes = v.writes ++ map (λ w. (slot.id, w)) (Runner.finish slot.inner result logs).1;
  }

  finish-opens : finish slot result logs now v ≡ spawn_admitted released.1 ended
  unfolding finish released ended
  finish-opens = rw ending.0 refl

  idle_at : (b : RunId) → (b == slot.id) ≡ true → waits_of b v.scheduler.queue ≡ 0
  idle_at b e =
      subst (λ i. waits_of i v.scheduler.queue ≡ 0) (sym ((==_iff b slot.id).0 e)) ending.1

  admitted-registered : (b : RunId) → count b released.1 ≤ slots_of b ended.registry
  unfolding released ended
  admitted-registered b =
      let (moved, _) = release-moves v.scheduler slot.id (not (is_complete result.cleanup)) now b in
      elim (Bool-cases (b == slot.id)) [
        | inl e ↦ omega (arith, moved, idle_at b e)
        | inr e ↦
            let (_, sum, _, _) = others b e in
            rw (slots_of-retain b slot.id v.registry, e) (omega (arith, moved, sum))
      ]

  ended-Counts :
      (a : RunId)
      → Counts
          (slots_of a ended.registry)
          (runs_of a released.0.running)
          (waits_of a released.0.queue)
          (count a closing)
          (count a v.spawned + count a released.1)
  unfolding released ended
  ended-Counts a =
      let (moved, runs) =
        release-moves v.scheduler slot.id (not (is_complete result.cleanup)) now a in
      rw (slots_of-retain a slot.id v.registry) (
        admitted-Counts (a == slot.id) (slots_of a v.registry) _ _ (count a closing) _ _ _ _ moved
          runs
          (λ e.
            let same = (==_iff a slot.id).0 e in
            (
              idle_at a e,
              ap (λ i. count i closing) same ∙ ending.2,
              subst (λ i. count i v.spawned ≤ 1) (sym same) ending.3,
            ))
          (others a))

  pub finish-Balanced : (a : RunId) → Balanced closing (finish slot result logs now v) a
  finish-Balanced a =
      let (slots, spawned, same) = spawn_admitted-effect released.1 ended a admitted-registered in
      rw (finish-opens, slots, spawned, same) (unfold ended in ended-Counts a)

retain-Live :
    (p : RunSlot → Bool) (slots : List RunSlot)
    → All (λ s. is_terminal s.inner.state ≡ false) slots
    → All (λ s. is_terminal s.inner.state ≡ false) (retain p slots)
retain-Live p slots h = retain-All _ p slots h

pub finish-Live :
    (slot : RunSlot) (result : RunResult) (logs : LogState) (now : Duration) (v : Supervisor)
    → Live v
    → Live (finish slot result logs now v)
unfolding finish
finish-Live slot result logs now v h = elim (Bool-cases (is_terminal slot.inner.state)) [
  | inl e ↦ rw e h
  | inr e ↦ rw e (spawn_admitted-Live _ _ (retain-Live _ v.registry h))
]
