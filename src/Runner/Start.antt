-- ===== src/Runner/Start.antt =====
-- `start` and `admit` of src/runner/mod.rs: a request is checked, inserted into the store, given a slot
-- and submitted to the scheduler, and its worker is started or it waits.
--
-- A call is one step, from the checks to the answer. The platform's capabilities, the digest of the
-- blake3 library, the name of the supervisor and the texts made of paths, positions and refusals are
-- arguments. The caller's environment is a list of names and values, kept by the worker alone. `none`
-- is a thread that panics inside `submit`.
pub mod Balance
pub mod Ends
pub mod Admit
pub mod Started
pub mod History
pub mod Repeats
mod Examples
use wyd.Common.{
  ℕ, ◌+◌, ◌*◌, Bool, true, false, Option, none, some, List, [], ◌∷◌, ◌++◌, ◌==◌, ltb, if◌then◌else◌,
  unwrap_or, find?, length, total, String,
}
use wyd.Run.{Bytes, RunSpec, spawn_failed}
use wyd.Run.Capabilities.{Platform, Refusal, check_capabilities}
use wyd.Scheduler.{
  Scheduler, RunId, Duration, RejectReason, Admission, start as starts, queued, rejected, submit,
}
use wyd.Scheduler.View.{Reason, queue_entries}
use wyd.Store.{Store, RunInsert, created, existing, conflict, run_insert, run_event, no_logs}
use wyd.Runner.{new_inner}
use wyd.Runner.Queue.{RunSlot, Supervisor, update_slot, unstarted, finish}

-- The supervisor with its database.
pub record System : Type 0 where
  pub store : Store
  pub supervisor : Supervisor

pub data StartError : Type 0 where
  empty_argv relative_cwd env_too_large : StartError
  unsupported : Refusal → StartError
  request_taken : RunId → StartError
  refused : RejectReason → StartError

pub data StartAnswer : Type 0 where
  failed : StartError → StartAnswer
  started : RunId → Bool → StartAnswer

-- `MAX_ENV_BYTES`.
abbrev max_env_bytes : ℕ
max_env_bytes = 256 * 1024

-- `Path::is_absolute` on Unix.
abbrev is_absolute : Bytes → Bool
is_absolute [] = false
is_absolute (b ∷ _) = b == b'/'

abbrev env_bytes : List (Bytes × Bytes) → ℕ
env_bytes env = total (λ (kv : Bytes × Bytes). length kv.0 + length kv.1 + 2) env

abbrev new_slot : RunId → RunSlot
new_slot id = record { id = id; inner = new_inner; cancel = false; logs = no_logs }

-- The slot of a new run, and its first event.
abbrev register : RunId → ℕ → System → System
register id wall s = record s {
  store = run_event s.store id 0 "created" none wall;
  supervisor = record s.supervisor { registry = s.supervisor.registry ++ new_slot id ∷ [] };
}

module _ (queued_text : ℕ → Option Reason → String) (refused_text : RejectReason → String) where
  -- What `admit` does with the scheduler's answer.
  unfoldable pub decide : RunSlot → Duration → ℕ → Admission → System → System × StartAnswer
  decide slot now wall (starts _) s = (
    record s {
      supervisor = record s.supervisor { spawned = s.supervisor.spawned ++ slot.id ∷ [] };
    },
    started slot.id true,
  )
  decide slot now wall (queued position) s =
      let entry = find? (λ e. e.run_id == slot.id) (queue_entries s.supervisor.scheduler now) in
      let reason = elim entry as (λ _. Option Reason) [ none ↦ none | some e ↦ some e.reason ] in
      let detail = queued_text position reason in
      (
        record s {
          store = run_event s.store slot.id 0 "queued" (some detail) wall;
          supervisor =
              update_slot slot.id
                (λ x. record x { inner = record x.inner { detail = some detail } }) s.supervisor;
        },
        started slot.id true,
      )
  decide slot now wall (rejected reason) s = (
    record s {
      supervisor =
          finish slot (unstarted spawn_failed (refused_text reason) wall) slot.logs now
            s.supervisor;
    },
    failed (refused reason),
  )

  abbrev pub settle :
      RunSlot
      → Duration
      → ℕ
      → Option (Scheduler × Admission)
      → System
      → Option (System × StartAnswer)
  settle slot now wall none s = none
  settle slot now wall (some (t, decision)) s = some (
      decide slot now wall decision
        (record s { supervisor = record s.supervisor { scheduler = t } }))

module _ (platform : Platform) (cgroup : Bool) (blake3 : Bytes → ℕ) (identity : String)
    (lossy : Bytes → String) (queued_text : ℕ → Option Reason → String)
    (refused_text : RejectReason → String) where
  -- The checks at the top of `start`.
  unfoldable pub check : RunSpec → List (Bytes × Bytes) → Option StartError
  check spec env = elim spec.argv [
    | [] ↦ some empty_argv
    | _ ∷ _ ↦
        if is_absolute spec.cwd
        then if ltb max_env_bytes (env_bytes env)
          then some env_too_large
          else elim (check_capabilities platform cgroup spec) [
            | none ↦ none
            | some refusal ↦ some (unsupported refusal)
          ]
        else some relative_cwd
  ]

  abbrev project_key : RunSpec → String
  project_key spec = lossy (unwrap_or spec.project_root spec.cwd)

  unfoldable pub admit : RunSlot → RunSpec → Duration → ℕ → System → Option (System × StartAnswer)
  admit slot spec now wall s =
      let scheduler = s.supervisor.scheduler in
      let memory =
        unwrap_or spec.resources.memory_bytes scheduler.limits.default_run_memory_bytes in
      settle queued_text refused_text slot now wall
        (submit scheduler slot.id (project_key spec) memory spec.resources.queue_timeout now) s

  -- `start` after its checks.
  abbrev pub inserted :
      RunSpec → Duration → ℕ → Supervisor → Store × RunInsert → Option (System × StartAnswer)
  inserted spec now wall v (store, created id) =
      admit (new_slot id) spec now wall
        (register id wall (record { store = store; supervisor = v }))
  inserted spec now wall v (store, existing id) =
      some (record { store = store; supervisor = v }, started id false)
  inserted spec now wall v (store, conflict id) =
      some (record { store = store; supervisor = v }, failed (request_taken id))

  abbrev pub checked :
      RunSpec → Duration → ℕ → System → Option StartError → Option (System × StartAnswer)
  checked spec now wall s (some error) = some (s, failed error)
  checked spec now wall s none =
      inserted spec now wall s.supervisor (run_insert blake3 s.store spec identity wall)

  unfoldable pub start :
      RunSpec → List (Bytes × Bytes) → Duration → ℕ → System → Option (System × StartAnswer)
  start spec env now wall s = checked spec now wall s (check spec env)
