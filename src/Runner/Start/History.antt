-- ===== src/Runner/Start/History.antt =====
-- The supervisor of src/runner/mod.rs over any history of starts, workers, cancellations and turns of
-- the queue's clock.
use mathlib.Core.Option
use wyd.Common.{
  any, map, ◌++◌, ◌+◌, if◌then◌else◌, ℕ, ◌≤◌, ◌≡◌, refl, subst, inl, inr, Bool, false, Option, none,
  some, List, [], ◌∷◌, ◌==◌, Bool-cases, All, arith, String,
}
use wyd.Logs.{LogState}
use wyd.Run.{Bytes, RunSpec, is_terminal}
use wyd.Run.Capabilities.{Platform}
use wyd.Scheduler.{Limits, RunId, Duration, RejectReason, expire, new}
use wyd.Scheduler.View.{Reason}
use wyd.Scheduler.Conservation.{count, waits_of}
use wyd.Store.{Store, RunResult, RunStep}
use wyd.Runner
use wyd.Runner.Queue.{
  RunSlot, finish, Supervisor, cancel, cancel_each, cancel_all, cancel_slot, queue_tick, move_run,
  exit_run, update_slot,
}
use wyd.Runner.Queue.Ends.{Gone, finish-Gone, expire_slots-Gone, cancel_slot-Gone, update_slot-Gone}
use wyd.Runner.Start.{System, StartAnswer, start}
use wyd.Runner.Start.Balance.{Live}
use wyd.Runner.Start.Started.{WellFormed, Returns, start-WellFormed}
use wyd.Runner.Start.Ends.{
  Sound, at_slot, move_run-Sound, exit_run-Sound, cancel-Sound, cancel_each-Sound, queue_tick-Sound,
}

-- A call of the supervisor, by a client, by a run's worker, or by the clock of the queue.
pub data Step : Type 0 where
  starts : RunSpec → List (Bytes × Bytes) → Duration → ℕ → Step
  moves : RunId → RunStep → ℕ → Step
  exits : RunId → RunResult → LogState → Duration → Step
  cancels : RunId → Duration → ℕ → Step
  cancels_all : Duration → ℕ → Step
  ticks : Duration → ℕ → Step

-- `transition` is called with `Starting`, `Running` and `Stopping`.
abbrev pub Moves : Step → Type 0
Moves (moves id step wall) = is_terminal step.state ≡ false
Moves _ = Unit

abbrev supervised : (Supervisor → Supervisor) → System → Option System
supervised f s = some (record s { supervisor = f s.supervisor })

abbrev Reached : Option System → Type 0
Reached none = Unit
Reached (some s) = WellFormed s

Returns-Reached :
    (o : Option (System × StartAnswer)) → Returns o → Reached (Option.map (λ r. r.0) o)
Returns-Reached none h = tt
Returns-Reached (some (t, answer)) h = h

cancel-Gone :
    (id : RunId) (now : Duration) (wall : ℕ) (a : RunId) (v : Supervisor)
    → Live v
    → Gone a 0 v
    → Gone a 0 (cancel id now wall v)
unfolding cancel
cancel-Gone id now wall a v live h =
    at_slot (Gone a 0) id v (λ slot. cancel_slot slot now wall v) (λ _. h) live
      (λ slot _ _. cancel_slot-Gone slot now wall a 0 v h)

cancel_each-Gone :
    (slots : List RunSlot) (now : Duration) (wall : ℕ) (a : RunId) (v : Supervisor)
    → Sound [] v
    → Gone a 0 v
    → Gone a 0 (cancel_each slots now wall v)
unfolding cancel_each
cancel_each-Gone [] now wall a v sound h = h
cancel_each-Gone (slot ∷ slots) now wall a v sound h =
    cancel_each-Gone slots now wall a (cancel slot.id now wall v)
      (cancel-Sound slot.id now wall v sound) (cancel-Gone slot.id now wall a v sound.1 h)

exit_run-Gone :
    (id : RunId) (result : RunResult) (logs : LogState) (now : Duration) (a : RunId)
    (v : Supervisor)
    → Live v
    → Gone a 0 v
    → Gone a 0 (exit_run id result logs now v)
unfolding exit_run
exit_run-Gone id result logs now a v live h =
    at_slot (Gone a 0) id v
      (λ slot. if any (λ i. i == id) v.spawned then finish slot result logs now v else v) (λ _. h)
      live
      (λ slot _ _. elim (Bool-cases (any (λ i. i == id) v.spawned)) [
        | inl w ↦ rw w (finish-Gone slot result logs now a 0 v h)
        | inr w ↦ rw w h
      ])

move_run-Gone :
    (id : RunId) (step : RunStep) (wall : ℕ) (a : RunId) (v : Supervisor)
    → Live v
    → Gone a 0 v
    → Gone a 0 (move_run id step wall v)
unfolding move_run
move_run-Gone id step wall a v live h =
    let f : RunSlot → RunSlot = λ s. record s { inner = (Runner.transition s.inner step wall).0 } in
    at_slot (Gone a 0) id v
      (λ slot.
        if any (λ i. i == id) v.spawned
        then record (update_slot id f v) {
          writes = v.writes ++ map (λ w. (id, w)) (Runner.transition slot.inner step wall).1;
        }
        else v)
      (λ _. h) live
      (λ slot _ _. elim (Bool-cases (any (λ i. i == id) v.spawned)) [
        | inl w ↦ rw w (update_slot-Gone a id 0 f v (λ s. refl) h)
        | inr w ↦ rw w h
      ])

module _ (platform : Platform) (cgroup : Bool) (blake3 : Bytes → ℕ) (identity : String)
    (lossy : Bytes → String) (queued_text : ℕ → Option Reason → String)
    (refused_text : RejectReason → String) where
  unfoldable pub step : Step → System → Option System
  step (starts spec env now wall) s =
      Option.map (λ r. r.0)
        (start platform cgroup blake3 identity lossy queued_text refused_text spec env now wall s)
  step (moves id to wall) s = supervised (move_run id to wall) s
  step (exits id result logs now) s = supervised (exit_run id result logs now) s
  step (cancels id now wall) s = supervised (cancel id now wall) s
  step (cancels_all now wall) s = supervised (cancel_all now wall) s
  step (ticks now wall) s = supervised (queue_tick now wall) s

  -- The calls one after the other, unless a start panics.
  unfoldable pub steps : List Step → System → Option System
  steps [] s = some s
  steps (x ∷ xs) s = elim (step x s) [ none ↦ none | some t ↦ steps xs t ]

  step-Reached : (x : Step) (s : System) → Moves x → WellFormed s → Reached (step x s)
  unfolding step queue_tick cancel_all
  step-Reached (starts spec env now wall) s ok h = Returns-Reached _ (
      start-WellFormed platform cgroup blake3 identity lossy queued_text refused_text spec env now
        wall s h)
  step-Reached (moves id to wall) s ok (sound, fresh) = (
    move_run-Sound id to wall s.supervisor ok sound,
    λ a later. move_run-Gone id to wall a s.supervisor sound.1 (fresh a later),
  )
  step-Reached (exits id result logs now) s ok (sound, fresh) = (
    exit_run-Sound id result logs now s.supervisor sound,
    λ a later. exit_run-Gone id result logs now a s.supervisor sound.1 (fresh a later),
  )
  step-Reached (cancels id now wall) s ok (sound, fresh) = (
    cancel-Sound id now wall s.supervisor sound,
    λ a later. cancel-Gone id now wall a s.supervisor sound.1 (fresh a later),
  )
  step-Reached (cancels_all now wall) s ok (sound, fresh) = (
    cancel_each-Sound s.supervisor.registry now wall s.supervisor sound,
    λ a later. cancel_each-Gone s.supervisor.registry now wall a s.supervisor sound (fresh a later),
  )
  step-Reached (ticks now wall) s ok (sound, fresh) = (
    queue_tick-Sound now wall s.supervisor sound,
    λ a later.
        expire_slots-Gone (expire s.supervisor.scheduler now).1 now wall a 0
          (record s.supervisor { scheduler = (expire s.supervisor.scheduler now).0 })
          (fresh a later),
  )

  steps-Reached : (xs : List Step) (s : System) → All Moves xs → WellFormed s → Reached (steps xs s)
  unfolding steps
  steps-Reached [] s ok h = h
  steps-Reached (x ∷ xs) s ok h =
      go (λ t. steps-Reached xs t ok.1) (step x s) (step-Reached x s ok.0 h)
    where
      go :
          ((t : System) → WellFormed t → Reached (steps xs t))
          → (o : Option System) → Reached o
          → Reached (elim o [ none ↦ none | some t ↦ steps xs t ])
      go rest none r = tt
      go rest (some t) r = rest t r

  -- In any history of starts, workers, cancellations and turns of the clock in which no start panics,
  -- the registry and the scheduler stay in balance: a registered run has one slot, is not finished, and
  -- either runs or waits, once; a slot of the scheduler is taken for a run if and only if its worker was
  -- started and has not ended; and a run that has left the registry neither runs nor waits. No run
  -- is given a second worker, nor one while it waits. Workers pass states other than `Finished` to
  -- `transition`.
  pub steps-one_worker :
      (xs : List Step) (s t : System) (id : RunId)
      → All Moves xs
      → WellFormed s
      → steps xs s ≡ some t
      → WellFormed t
        × (count id t.supervisor.spawned + waits_of id t.supervisor.scheduler.queue ≤ 1)
  steps-one_worker xs s t id ok h e =
      let reached : WellFormed t = subst Reached e (steps-Reached xs s ok h) in
      let (one, sum, few, worker) = reached.0.0 id in (reached, omega arith)

-- The supervisor as it is opened, over any database.
pub new_system-WellFormed :
    (limits : Limits) (store : Store)
    → WellFormed (record {
      store = store;
      supervisor = record { registry = []; scheduler = new limits; spawned = []; writes = [] };
    })
unfolding new any
new_system-WellFormed limits store =
    ((λ a. (omega arith, refl, omega arith, omega arith), tt), λ a _. (refl, refl))
