-- ===== src/Run.antt =====
-- src/model/run.rs: the description of a managed run, its states and their names, and the request's
-- fingerprint; and from src/runner/mod.rs the checks of a request against the backend.
--
-- A text or path of a request is its bytes. A capability's reason is given by its case.
pub mod Names
pub mod Capabilities
pub mod Fingerprint
mod Examples
use wyd.Common.{
  ℕ, zero, suc, ◌*◌, ◌/◌, ◌%◌, String, Bool, true, false, not, Option, none, some, List, [], ◌∷◌,
  ◌++◌, str_eq, if◌then◌else◌, is_some,
}

abbrev pub Bytes : Type 0
Bytes = List ℕ

pub data RunState : Type 0 where
  queued starting running stopping finished : RunState

pub data RunOutcome : Type 0 where
  exited signaled timed_out cancelled spawn_failed supervisor_lost resource_limit : RunOutcome

pub data CleanupState : Type 0 where
  pending complete incomplete unknown : CleanupState

unfoldable pub state_as_str : RunState → String
state_as_str queued = "queued"
state_as_str starting = "starting"
state_as_str running = "running"
state_as_str stopping = "stopping"
state_as_str finished = "finished"

unfoldable pub parse_state : String → Option RunState
parse_state s =
    if str_eq s "queued"
    then some queued
    else if str_eq s "starting"
    then some starting
    else if str_eq s "running"
    then some running
    else if str_eq s "stopping"
    then some stopping
    else if str_eq s "finished"
    then some finished
    else none

abbrev pub is_terminal : RunState → Bool
is_terminal finished = true
is_terminal _ = false

unfoldable pub outcome_as_str : RunOutcome → String
outcome_as_str exited = "exited"
outcome_as_str signaled = "signaled"
outcome_as_str timed_out = "timed_out"
outcome_as_str cancelled = "cancelled"
outcome_as_str spawn_failed = "spawn_failed"
outcome_as_str supervisor_lost = "supervisor_lost"
outcome_as_str resource_limit = "resource_limit"

unfoldable pub parse_outcome : String → Option RunOutcome
parse_outcome s =
    if str_eq s "exited"
    then some exited
    else if str_eq s "signaled"
    then some signaled
    else if str_eq s "timed_out"
    then some timed_out
    else if str_eq s "cancelled"
    then some cancelled
    else if str_eq s "spawn_failed"
    then some spawn_failed
    else if str_eq s "supervisor_lost"
    then some supervisor_lost
    else if str_eq s "resource_limit"
    then some resource_limit
    else none

unfoldable pub cleanup_as_str : CleanupState → String
cleanup_as_str pending = "pending"
cleanup_as_str complete = "complete"
cleanup_as_str incomplete = "incomplete"
cleanup_as_str unknown = "unknown"

unfoldable pub parse_cleanup : String → Option CleanupState
parse_cleanup s =
    if str_eq s "pending"
    then some pending
    else if str_eq s "complete"
    then some complete
    else if str_eq s "incomplete"
    then some incomplete
    else if str_eq s "unknown"
    then some unknown
    else none

pub data Enforcement : Type 0 where
  unenforced monitored hard : Enforcement

pub record ResourceRequest : Type 0 where
  pub memory_bytes : Option ℕ
  pub cpu_millicores : Option ℕ
  pub processes : Option ℕ
  pub enforcement : Enforcement
  pub queue_timeout : Option ℕ

pub data SessionOrigin : Type 0 where
  no_session caller_reported : SessionOrigin

pub record RunSpec : Type 0 where
  pub request_id : Bytes
  pub argv : List Bytes
  pub cwd : Bytes
  pub project_root : Option Bytes
  pub session_id : Option ℕ
  pub session_origin : SessionOrigin
  pub timeout : ℕ
  pub grace : ℕ
  pub log_limit_bytes : ℕ
  pub resources : ResourceRequest

abbrev pub default_timeout : ℕ
default_timeout = 600 * 1000000000

abbrev pub default_grace : ℕ
default_grace = 3 * 1000000000

abbrev pub default_run_log_limit : ℕ
default_run_log_limit = 10 * 1024 * 1024

abbrev pub empty_request : ResourceRequest
empty_request = record {
  memory_bytes = none;
  cpu_millicores = none;
  processes = none;
  enforcement = unenforced;
  queue_timeout = none;
}

unfoldable pub new : Bytes → List Bytes → Bytes → RunSpec
new request_id argv cwd = record {
  request_id = request_id;
  argv = argv;
  cwd = cwd;
  project_root = none;
  session_id = none;
  session_origin = no_session;
  timeout = default_timeout;
  grace = default_grace;
  log_limit_bytes = default_run_log_limit;
  resources = empty_request;
}

-- `to_le_bytes` of an integer of so many bytes.
unfoldable pub to_le_bytes : ℕ → ℕ → Bytes
to_le_bytes zero n = []
to_le_bytes (suc width) n = n % 256 ∷ to_le_bytes width (n / 256)

-- The bytes of the arguments, each behind a zero byte.
unfoldable pub argv_bytes : List Bytes → Bytes
argv_bytes [] = []
argv_bytes (arg ∷ argv) = 0 ∷ (arg ++ argv_bytes argv)

abbrev pub optional {ℓ} : {A : Type ℓ} → (A → Bytes) → Option A → Bytes
optional f none = []
optional f (some a) = f a

-- What `fingerprint` feeds to the hash, in order.
unfoldable pub hashed_bytes : RunSpec → Bytes
hashed_bytes spec =
    spec.request_id
    ++ (argv_bytes spec.argv
        ++ (spec.cwd
            ++ (optional (λ root. root) spec.project_root
                ++ optional (to_le_bytes 8) spec.session_id)))

-- `fingerprint`, over the hash of the blake3 library.
unfoldable pub fingerprint : (Bytes → ℕ) → RunSpec → ℕ
fingerprint blake3 spec = blake3 (hashed_bytes spec)

-- `caller_session` of the runner.
unfoldable pub caller_session : Option ℕ → SessionOrigin
caller_session (some _) = caller_reported
caller_session none = no_session
