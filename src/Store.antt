-- ===== src/Store.antt =====
-- The run rows and events of src/store.rs, as the supervisor of src/runner/mod.rs writes them.
--
-- The tables `runs` and `run_events` are lists, the newest row first; the statements are read as
-- SQLite runs them. A revision starts at 0 and grows by 1, and times are seconds: neither comes
-- near the end of its integer type. A statement that fails leaves the tables as they are and is
-- not modelled further.
pub mod Calls
pub mod Insert
pub mod Persist
pub mod Events
mod Examples
use mathlib.Core.Option
use wyd.Common.{
  ℕ, zero, suc, ◌+◌, ◌-◌, ◌*◌, String, Bool, true, false, not, ◌&&◌, Option, none, some, List, [],
  ◌∷◌, ◌++◌, map, ltb, leb, ◌==◌, if◌then◌else◌, is_some, retain, find?,
}
use wyd.Identity.{ProcessIdentity}
use wyd.Logs.{LogState}
use wyd.Run.{
  Bytes, RunSpec, RunState, queued, finished, RunOutcome, CleanupState, pending, is_terminal,
  outcome_as_str, fingerprint,
}

abbrev pub RunId : Type 0
RunId = ℕ

pub record RunResult : Type 0 where
  pub outcome : RunOutcome
  pub exit_code : Option ℕ
  pub signal : Option ℕ
  pub started_at : Option ℕ
  pub finished_at : ℕ
  pub duration_ms : ℕ
  pub cleanup : CleanupState
  pub detail : Option String

-- A row of `runs`; the request's other columns are in `spec`, and those of the outcome in `result`.
-- Left out are the boot id and the columns that only `run_set_effective` and `run_set_limit_event`
-- write.
pub record Row : Type 0 where
  pub id : RunId
  pub fingerprint : ℕ
  pub spec : RunSpec
  pub state : RunState
  pub cleanup : CleanupState
  pub revision : ℕ
  pub supervisor : String
  pub created_at : ℕ
  pub started_at : Option ℕ
  pub leader : Option ProcessIdentity
  pub result : Option RunResult
  pub logs : LogState

pub record RunEvent : Type 0 where
  pub run_id : RunId
  pub revision : ℕ
  pub at : ℕ
  pub kind : String
  pub detail : Option String

-- `next_id` is the key that AUTOINCREMENT gives next.
pub record Store : Type 0 where
  pub runs : List Row
  pub events : List RunEvent
  pub next_id : RunId

pub data RunInsert : Type 0 where
  created existing conflict : RunId → RunInsert

-- 24 hours, in seconds.
abbrev pub request_id_window : ℕ
request_id_window = 24 * 60 * 60

unfoldable pub bytes_eq : Bytes → Bytes → Bool
bytes_eq [] [] = true
bytes_eq (a ∷ xs) (b ∷ ys) = a == b && bytes_eq xs ys
bytes_eq _ _ = false

-- The row that the query of `run_insert` selects: the newest of the request within the window.
unfoldable pub recent : Bytes → ℕ → List Row → Option Row
recent request_id window_start =
    find? λ r. bytes_eq r.spec.request_id request_id && leb window_start r.created_at

-- The defaults of the log columns, `LogState::default`.
abbrev pub no_logs : LogState
no_logs = record {
  stdout_bytes = 0;
  stderr_bytes = 0;
  stdout_truncated = false;
  stderr_truncated = false;
}

abbrev pub repeated : ℕ → Row → RunInsert
repeated digest row = if row.fingerprint == digest then existing row.id else conflict row.id

abbrev pub new_row : RunId → ℕ → RunSpec → String → ℕ → Row
new_row id digest spec supervisor now = record {
  id = id;
  fingerprint = digest;
  spec = spec;
  state = queued;
  cleanup = pending;
  revision = 0;
  supervisor = supervisor;
  created_at = now;
  started_at = none;
  leader = none;
  result = none;
  logs = no_logs;
}

unfoldable pub run_insert : (Bytes → ℕ) → Store → RunSpec → String → ℕ → Store × RunInsert
run_insert blake3 s spec supervisor now =
    let digest = fingerprint blake3 spec in
    elim (recent spec.request_id (now - request_id_window) s.runs) [
      | some row ↦ (s, repeated digest row)
      | none ↦ (
        record s {
          runs = new_row s.next_id digest spec supervisor now ∷ s.runs;
          next_id = suc s.next_id;
        },
        created s.next_id,
      )
    ]

-- INSERT OR REPLACE, under the primary key (run_id, revision).
unfoldable pub run_event : Store → RunId → ℕ → String → Option String → ℕ → Store
run_event s id revision kind detail now = record s {
  events =
      record { run_id = id; revision = revision; at = now; kind = kind; detail = detail }
      ∷ retain (λ e. not (e.run_id == id && e.revision == revision)) s.events;
}

-- UPDATE of the rows that pass, and whether there were any.
unfoldable pub update : (Row → Bool) → (Row → Row) → List Row → List Row
update p f [] = []
update p f (r ∷ rs) = (if p r then f r else r) ∷ update p f rs

-- `RunStep`: the new state, the cleanup, the event's name and its detail.
pub record RunStep : Type 0 where
  pub state : RunState
  pub cleanup : CleanupState
  pub kind : String
  pub detail : Option String

unfoldable pub run_transition : Store → RunId → ℕ → RunStep → ℕ → Store × Bool
run_transition s id revision step now =
    let p = λ (r : Row). r.id == id && ltb r.revision revision in
    let f =
      λ (r : Row). record r { state = step.state; cleanup = step.cleanup; revision = revision } in
    if is_some (find? p s.runs)
    then (
      run_event (record s { runs = update p f s.runs }) id revision step.kind step.detail now,
      true,
    )
    else (s, false)

unfoldable pub run_set_leader : Store → RunId → ProcessIdentity → ℕ → Store
run_set_leader s id leader started_at = record s {
  runs =
      update (λ r. r.id == id)
        (λ r. record r { leader = some leader; started_at = some started_at }) s.runs;
}

-- COALESCE(?4, started_at).
abbrev pub or_else {ℓ} : {A : Type ℓ} → Option A → Option A → Option A
or_else (some a) b = some a
or_else none b = b

unfoldable pub run_finish : Store → RunId → ℕ → RunResult → LogState → Store × Bool
run_finish s id revision result logs =
    let p = λ (r : Row). r.id == id && not (is_terminal r.state) in
    let f = λ (r : Row). record r {
      state = finished;
      cleanup = result.cleanup;
      revision = revision;
      started_at = or_else result.started_at r.started_at;
      result = some result;
      logs = logs;
    } in
    if is_some (find? p s.runs)
    then (
      run_event (record s { runs = update p f s.runs }) id revision "finished"
          (some (outcome_as_str result.outcome)) result.finished_at,
      true,
    )
    else (s, false)

-- `record_from_row`: the result that a row keeps is read back with the columns that it shares with the
-- run, its start and its cleanup.
unfoldable pub record_from_row : Row → Row
record_from_row r = record r {
  result =
      Option.map (λ (x : RunResult). record x { started_at = r.started_at; cleanup = r.cleanup })
        r.result;
}

-- WHERE run_id = ?1, of a table keyed by it.
unfoldable pub find_row : Store → RunId → Option Row
find_row s id = find? (λ r. r.id == id) s.runs

unfoldable pub run_get : Store → RunId → Option Row
run_get s id = Option.map record_from_row (find_row s id)

unfoldable pub run_unfinished : Store → List Row
run_unfinished s = map record_from_row (retain (λ r. not (is_terminal r.state)) s.runs)

abbrev pub is_old : ℕ → Row → Bool
is_old before r = is_terminal r.state && ltb r.created_at before

-- The rows taken, their events and their ids.
unfoldable pub run_prune : Store → ℕ → Store × List RunId
run_prune s before =
    let old = retain (is_old before) s.runs in
    (
      record s {
        runs = retain (λ r. not (is_some (find? (λ o. o.id == r.id) old))) s.runs;
        events = retain (λ e. not (is_some (find? (λ o. o.id == e.run_id) old))) s.events;
      },
      map (λ r. r.id) old,
    )
