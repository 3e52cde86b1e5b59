-- ===== src/Runner/Start/Started.antt =====
-- `start` of src/runner/mod.rs keeps the registry in balance.
use wyd.Common.{
  ℕ, suc, ◌≤◌, ◌-◌, ◌≡◌, refl, sym, subst, inl, inr, Bool, false, Option, none, some, List, [], ◌∷◌,
  ◌==◌, Bool-cases, arith, String,
}
use wyd.Run.{Bytes, RunSpec, fingerprint}
use wyd.Run.Capabilities.{Platform}
use wyd.Scheduler.{
  Scheduler, RunId, Duration, RejectReason, Admission, start as starts_now, queued, rejected,
}
use wyd.Scheduler.View.{Reason}
use wyd.Store.{
  Store, Row, RunInsert, created, existing, conflict, run_insert, run_event, recent, repeated,
  new_row, request_id_window,
}
use wyd.Runner.Queue.{RunSlot}
use wyd.Runner.Queue.Ends.{Gone}
use wyd.Runner.Start.{
  System, StartAnswer, new_slot, decide, StartError, settle, admit, register, inserted, checked,
  start,
}
use wyd.Runner.Start.Ends.{Sound}
use wyd.Runner.Start.Admit.{
  Effects, submit-Effects, register-Sound, register-Gone, decide-Sound, decide-Gone,
}

-- The registry and the scheduler are in balance, and a run that the store has yet to number is unknown.
abbrev pub WellFormed : System → Type 0
WellFormed s = Sound [] s.supervisor × ((a : RunId) → s.store.next_id ≤ a → Gone a 0 s.supervisor)

-- Where a call returns.
abbrev pub Returns : Option (System × StartAnswer) → Type 0
Returns none = Unit
Returns (some (t, _)) = WellFormed t

decide-next_id :
    (queued_text : ℕ → Option Reason → String) (refused_text : RejectReason → String)
    (slot : RunSlot) (now : Duration) (wall : ℕ) (decision : Admission) (s : System)
    → (decide queued_text refused_text slot now wall decision s).0.store.next_id ≡ s.store.next_id
unfolding decide run_event
decide-next_id q r slot now wall (starts_now _) s = refl
decide-next_id q r slot now wall (queued _) s = refl
decide-next_id q r slot now wall (rejected _) s = refl

-- A run that the store has just numbered is registered and submitted.
settle-WellFormed :
    (queued_text : ℕ → Option Reason → String) (refused_text : RejectReason → String) (id : RunId)
    (now : Duration) (wall : ℕ) (o : Option (Scheduler × Admission)) (s : System)
    → s.store.next_id ≡ suc id
    → Sound [] s.supervisor
    → ((a : RunId) → id ≤ a → Gone a 0 s.supervisor)
    → Effects id s.supervisor.scheduler o
    → Returns (settle queued_text refused_text (new_slot id) now wall o (register id wall s))
unfolding run_event
settle-WellFormed q r id now wall none s next sound fresh effect = tt
settle-WellFormed q r id now wall (some (t, decision)) s next sound fresh effect = (
  decide-Sound id now wall q r (register id wall s) t decision
      (register-Sound id wall s sound (fresh id (omega arith))) effect,
  λ a later.
      let above : suc id ≤ a = omega (
        arith,
        later,
        next,
        decide-next_id q r (new_slot id) now wall decision (record (register id wall s) {
          supervisor = record (register id wall s).supervisor { scheduler = t };
        }),
      ) in
      let other : (id == a) ≡ false = ground arith in
      decide-Gone id now wall q r (register id wall s) t decision a other
        (register-Gone id a wall s other (fresh a (omega (arith, above)))),
)

-- The number of a new run is the next one, and any other answer leaves the store as it is.
abbrev Numbered : Store → Store × RunInsert → Type 0
Numbered s (t, created id) = (id ≡ s.next_id) × (t.next_id ≡ suc id)
Numbered s (t, existing id) = s ≡ t
Numbered s (t, conflict id) = s ≡ t

repeated-Numbered : (s : Store) (digest : ℕ) (row : Row) → Numbered s (s, repeated digest row)
repeated-Numbered s digest row = elim (Bool-cases (row.fingerprint == digest)) [
  | inl e ↦ rw e refl
  | inr e ↦ rw e refl
]

run_insert-Numbered :
    (blake3 : Bytes → ℕ) (s : Store) (spec : RunSpec) (identity : String) (wall : ℕ)
    → Numbered s (run_insert blake3 s spec identity wall)
unfolding run_insert
run_insert-Numbered blake3 s spec identity wall =
    go (recent spec.request_id (wall - request_id_window) s.runs)
  where
    digest : ℕ
    digest = fingerprint blake3 spec

    go :
        (o : Option Row)
        → Numbered s (elim o [
          | some row ↦ (s, repeated digest row)
          | none ↦ (
            record s {
              runs = new_row s.next_id digest spec identity wall ∷ s.runs;
              next_id = suc s.next_id;
            },
            created s.next_id,
          )
        ])
    go none = (refl, refl)
    go (some row) = repeated-Numbered s digest row

module _ (platform : Platform) (cgroup : Bool) (blake3 : Bytes → ℕ) (identity : String)
    (lossy : Bytes → String) (queued_text : ℕ → Option Reason → String)
    (refused_text : RejectReason → String) where
  inserted-WellFormed :
      (spec : RunSpec) (now : Duration) (wall : ℕ) (s : System) (o : Store × RunInsert)
      → Numbered s.store o
      → WellFormed s
      → Returns (
          inserted platform cgroup blake3 identity lossy queued_text refused_text spec now wall
            s.supervisor o)
  unfolding admit
  inserted-WellFormed spec now wall s (t, created id) (same, next) (sound, fresh) =
      settle-WellFormed queued_text refused_text id now wall _
        (record { store = t; supervisor = s.supervisor }) next sound
        (λ a above. fresh a (omega (arith, same, above))) (submit-Effects _ id _ _ _ now)
  inserted-WellFormed spec now wall s (t, existing id) same (sound, fresh) =
      (sound, λ a later. fresh a (subst (λ u. u.next_id ≤ a) (sym same) later))
  inserted-WellFormed spec now wall s (t, conflict id) same (sound, fresh) =
      (sound, λ a later. fresh a (subst (λ u. u.next_id ≤ a) (sym same) later))

  checked-WellFormed :
      (spec : RunSpec) (now : Duration) (wall : ℕ) (s : System) (o : Option StartError)
      → WellFormed s
      → Returns
          (checked platform cgroup blake3 identity lossy queued_text refused_text spec now wall s o)
  checked-WellFormed spec now wall s (some error) h = h
  checked-WellFormed spec now wall s none h =
      inserted-WellFormed spec now wall s _ (run_insert-Numbered blake3 s.store spec identity wall)
        h

  pub start-WellFormed :
      (spec : RunSpec) (env : List (Bytes × Bytes)) (now : Duration) (wall : ℕ) (s : System)
      → WellFormed s
      → Returns
          (start platform cgroup blake3 identity lossy queued_text refused_text spec env now wall s)
  unfolding start
  start-WellFormed spec env now wall s h = checked-WellFormed spec now wall s _ h
