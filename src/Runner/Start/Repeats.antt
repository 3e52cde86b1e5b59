-- ===== src/Runner/Start/Repeats.antt =====
-- A request that is made again in `start` of src/runner/mod.rs.
use mathlib.Core.Option
use wyd.Common.{
  ℕ, ◌+◌, ◌≤◌, ◌≡◌, ◌≢◌, sym, ap, ◌∙◌, subst, ◌⊎◌, inl, inr, Bool, false, Option, none, some,
  OnSome, List, [], ◌∷◌, All, String, ◌<◌,
}
use wyd.Run.{Bytes, RunSpec, fingerprint}
use wyd.Run.Capabilities.{Platform}
use wyd.Scheduler.{
  Scheduler, RunId, Duration, RejectReason, Admission, start as starts_now, queued, rejected,
}
use wyd.Scheduler.View.{Reason}
use wyd.Store.{
  Store, RunInsert, created, existing, conflict, run_insert, run_event, request_id_window,
}
use wyd.Store.Calls.{Call, Within, call, Held, insert-Held, calls-Held, calls}
use wyd.Store.Insert.{inserted-Held, Held-Repeats}
use wyd.Runner.Start.{
  System, StartError, StartAnswer, started, failed, request_taken, new_slot, decide, settle, admit,
  register, inserted, checked, check, start,
}
use wyd.Runner.Start.History.{Step, starts, moves, exits, cancels, cancels_all, ticks, step}

-- A call of the supervisor, or a write that reaches the store.
pub data Event : Type 0 where
  asks : Step → Event
  arrives : Call → Event

-- Events while the window of a request made at that time lasts, and that prune older runs only.
abbrev pub Soon : ℕ → Event → Type 0
Soon at (asks (starts spec env now wall)) = wall ≤ at + request_id_window
Soon at (asks _) = Unit
Soon at (arrives c) = Within at c

module _ (platform : Platform) (cgroup : Bool) (blake3 : Bytes → ℕ) (identity : String)
    (lossy : Bytes → String) (queued_text : ℕ → Option Reason → String)
    (refused_text : RejectReason → String) where
  unfoldable pub event : Event → System → Option System
  event (asks x) s = step platform cgroup blake3 identity lossy queued_text refused_text x s
  event (arrives c) s = some (record s { store = call blake3 c s.store })

  -- The events one after the other, unless a start panics.
  unfoldable pub happens : List Event → System → Option System
  happens [] s = some s
  happens (e ∷ es) s = elim (event e s) [ none ↦ none | some t ↦ happens es t ]

module _ (request : Bytes) (id : RunId) (digest at : ℕ) where
  -- The request id finds the run in the store of the system.
  abbrev Holds : System → Type 0
  Holds s = Held request id digest at s.store.runs s.store.next_id

  module _ (queued_text : ℕ → Option Reason → String) (refused_text : RejectReason → String)
      (i : RunId) (now : Duration) (wall : ℕ) where
    decide-Holds :
        (decision : Admission) (s : System)
        → Holds s
        → Holds (decide queued_text refused_text (new_slot i) now wall decision s).0
    unfolding decide run_event
    decide-Holds (starts_now _) s h = h
    decide-Holds (queued _) s h = h
    decide-Holds (rejected _) s h = h

    settle-Holds :
        (o : Option (Scheduler × Admission)) (s : System)
        → Holds s
        → OnSome
            (λ r. Holds r.0)
            (settle queued_text refused_text (new_slot i) now wall o (register i wall s))
    unfolding run_event
    settle-Holds none s h = tt
    settle-Holds (some (t, decision)) s h = decide-Holds decision _ h

  module _ (platform : Platform) (cgroup : Bool) (blake3 : Bytes → ℕ) (identity : String)
      (lossy : Bytes → String) (queued_text : ℕ → Option Reason → String)
      (refused_text : RejectReason → String) where
    inserted-Holds :
        (spec : RunSpec) (now : Duration) (wall : ℕ) (s : System) (o : Store × RunInsert)
        → Held request id digest at o.0.runs o.0.next_id
        → OnSome
            (λ r. Holds r.0)
            (inserted platform cgroup blake3 identity lossy queued_text refused_text spec now wall
              s.supervisor o)
    unfolding admit
    inserted-Holds spec now wall s (store, created i) h =
        settle-Holds queued_text refused_text i now wall _
          (record { store = store; supervisor = s.supervisor }) h
    inserted-Holds spec now wall s (store, existing i) h = h
    inserted-Holds spec now wall s (store, conflict i) h = h

    checked-Holds :
        (spec : RunSpec) (now : Duration) (wall : ℕ) (s : System) (error : Option StartError)
        → wall ≤ at + request_id_window
        → Holds s
        → OnSome
            (λ r. Holds r.0)
            (checked platform cgroup blake3 identity lossy queued_text refused_text spec now wall s
              error)
    checked-Holds spec now wall s (some error) soon h = h
    checked-Holds spec now wall s none soon h =
        inserted-Holds spec now wall s (run_insert blake3 s.store spec identity wall)
          (insert-Held request id digest at blake3 s.store spec identity wall soon h)

    answered-Holds :
        (o : Option (System × StartAnswer))
        → OnSome (λ r. Holds r.0) o
        → OnSome Holds (Option.map (λ r. r.0) o)
    answered-Holds none h = tt
    answered-Holds (some r) h = h

    event-Holds :
        (e : Event) (s : System)
        → Soon at e
        → Holds s
        → OnSome Holds (event platform cgroup blake3 identity lossy queued_text refused_text e s)
    unfolding event step start calls
    event-Holds (asks (starts spec env now wall)) s soon h = answered-Holds _ (
        checked-Holds spec now wall s
          (check platform cgroup blake3 identity lossy queued_text refused_text spec env) soon h)
    event-Holds (asks (moves i to wall)) s soon h = h
    event-Holds (asks (exits i result logs now)) s soon h = h
    event-Holds (asks (cancels i now wall)) s soon h = h
    event-Holds (asks (cancels_all now wall)) s soon h = h
    event-Holds (asks (ticks now wall)) s soon h = h
    event-Holds (arrives c) s soon h =
        calls-Held request id digest at blake3 (c ∷ []) s.store (soon, tt) h

    happens-Holds :
        (es : List Event) (s : System)
        → All (Soon at) es
        → Holds s
        → OnSome Holds (happens platform cgroup blake3 identity lossy queued_text refused_text es s)
    unfolding happens
    happens-Holds [] s soon h = h
    happens-Holds (e ∷ es) s soon h =
        go (λ t. happens-Holds es t soon.1)
          (event platform cgroup blake3 identity lossy queued_text refused_text e s)
          (event-Holds e s soon.0 h)
      where
        go :
            ((t : System)
              → Holds t
              → OnSome Holds
                  (happens platform cgroup blake3 identity lossy queued_text refused_text es t))
            → (o : Option System) → OnSome Holds o
            → OnSome Holds (elim o [
              | none ↦ none
              | some t ↦ happens platform cgroup blake3 identity lossy queued_text refused_text es t
            ])
        go rest none r = tt
        go rest (some t) r = rest t r

module _ (platform : Platform) (cgroup : Bool) (blake3 : Bytes → ℕ) (identity : String)
    (lossy : Bytes → String) (queued_text : ℕ → Option Reason → String)
    (refused_text : RejectReason → String) where
  -- `start` of a request that passes the checks.
  passed :
      (spec : RunSpec) (env : List (Bytes × Bytes)) (now : Duration) (wall : ℕ) (s : System)
      → check platform cgroup blake3 identity lossy queued_text refused_text spec env ≡ none
      → start platform cgroup blake3 identity lossy queued_text refused_text spec env now wall s
        ≡ inserted platform cgroup blake3 identity lossy queued_text refused_text spec now wall
            s.supervisor
            (run_insert blake3 s.store spec identity wall)
  unfolding start
  passed spec env now wall s h =
      ap (checked platform cgroup blake3 identity lossy queued_text refused_text spec now wall s) h

  same_answer :
      (spec : RunSpec) (now : Duration) (wall : ℕ) (t : System) (o : Store × RunInsert)
      (answer : RunInsert)
      → o.0 ≡ t.store
      → o.1 ≡ answer
      → inserted platform cgroup blake3 identity lossy queued_text refused_text spec now wall
          t.supervisor o
        ≡ inserted platform cgroup blake3 identity lossy queued_text refused_text spec now wall
            t.supervisor
            (t.store, answer)
  same_answer spec now wall t o answer e f =
      ap
        (inserted platform cgroup blake3 identity lossy queued_text refused_text spec now wall
          t.supervisor)
        (λ i. (e i, f i))

  -- A request that was given a run is given no second one by the same request id while the window
  -- of 24 hours lasts, whatever became of the run's admission and whatever happens in between: other
  -- starts, workers, cancellations, turns of the clock and writes that reach the store, where the
  -- clocks stay within that window, only runs created before the request are pruned, and no start
  -- panics. The repeated request changes nothing. The keys of the table are below the next one.
  pub start-repeats :
      (spec again : RunSpec) (env env' : List (Bytes × Bytes)) (now now' : Duration)
      (wall later : ℕ) (s t u : System) (store : Store) (id : RunId) (answer : StartAnswer)
      (between : List Event)
      → All (λ r. r.id < s.store.next_id) s.store.runs
      → check platform cgroup blake3 identity lossy queued_text refused_text spec env ≡ none
      → check platform cgroup blake3 identity lossy queued_text refused_text again env' ≡ none
      → again.request_id ≡ spec.request_id
      → later ≤ wall + request_id_window
      → run_insert blake3 s.store spec identity wall ≡ (store, created id)
      → start platform cgroup blake3 identity lossy queued_text refused_text spec env now wall s
        ≡ some (t, answer)
      → All (Soon wall) between
      → happens platform cgroup blake3 identity lossy queued_text refused_text between t ≡ some u
      → let next =
          start platform cgroup blake3 identity lossy queued_text refused_text again env' now' later
            u in
        ((fingerprint blake3 again ≡ fingerprint blake3 spec) × (next ≡ some (u, started id false)))
        ⊎ ((fingerprint blake3 again ≢ fingerprint blake3 spec)
            × (next ≡ some (u, failed (request_taken id))))
  start-repeats spec again env env' now now' wall later s t u store id answer between keys ok ok'
        same soon e h within h' =
      let digest = fingerprint blake3 spec in
      let first =
        sym (
          passed spec env now wall s ok
          ∙ ap
              (inserted platform cgroup blake3 identity lossy queued_text refused_text spec now wall
                s.supervisor)
              e)
        ∙ h in
      let held : Holds spec.request_id id digest wall t =
        subst (OnSome (λ r. Holds spec.request_id id digest wall r.0)) first (
          inserted-Holds spec.request_id id digest wall platform cgroup blake3 identity lossy
            queued_text refused_text spec now wall s (store, created id)
            (inserted-Held blake3 s.store store spec identity wall id keys e)) in
      let held' : Holds spec.request_id id digest wall u =
        subst (OnSome (Holds spec.request_id id digest wall)) h' (
          happens-Holds spec.request_id id digest wall platform cgroup blake3 identity lossy
            queued_text refused_text between t within held) in
      let (kept, found) =
        Held-Repeats blake3 u.store spec again identity wall later id _ held' same soon in
      let again_at = passed again env' now' later u ok' in
      elim found [
        | inl (digest, a) ↦ inl (digest, again_at ∙ same_answer again now' later u _ _ kept a)
        | inr (digest, a) ↦ inr (digest, again_at ∙ same_answer again now' later u _ _ kept a)
      ]
