-- ===== src/Run/Names.antt =====
-- The names of states in src/model/run.rs, by which they are stored and sent.
use wyd.Common.{◌≡◌, refl, ◌↔◌, String, str_eq_iff, some, arith}
use wyd.Run.{
  RunState, queued, RunOutcome, exited, CleanupState, pending, state_as_str, parse_state,
  outcome_as_str, parse_outcome, cleanup_as_str, parse_cleanup,
}

parse-state_as_str : (x : RunState) → parse_state (state_as_str x) ≡ some x
unfolding parse_state state_as_str
parse-state_as_str queued = refl
parse-state_as_str _ = refl

parse-outcome_as_str : (x : RunOutcome) → parse_outcome (outcome_as_str x) ≡ some x
unfolding parse_outcome outcome_as_str
parse-outcome_as_str exited = refl
parse-outcome_as_str _ = refl

parse-cleanup_as_str : (x : CleanupState) → parse_cleanup (cleanup_as_str x) ≡ some x
unfolding parse_cleanup cleanup_as_str
parse-cleanup_as_str pending = refl
parse-cleanup_as_str _ = refl

state_as_str-parse : (s : String) (x : RunState) → parse_state s ≡ some x → state_as_str x ≡ s
unfolding parse_state state_as_str
state_as_str-parse s x h = ground (
  arith,
  str_eq_iff s "queued",
  str_eq_iff s "starting",
  str_eq_iff s "running",
  str_eq_iff s "stopping",
  str_eq_iff s "finished",
)

outcome_as_str-parse :
    (s : String) (x : RunOutcome) → parse_outcome s ≡ some x → outcome_as_str x ≡ s
unfolding parse_outcome outcome_as_str
outcome_as_str-parse s x h = ground (
  arith,
  str_eq_iff s "exited",
  str_eq_iff s "signaled",
  str_eq_iff s "timed_out",
  str_eq_iff s "cancelled",
  str_eq_iff s "spawn_failed",
  str_eq_iff s "supervisor_lost",
  str_eq_iff s "resource_limit",
)

cleanup_as_str-parse :
    (s : String) (x : CleanupState) → parse_cleanup s ≡ some x → cleanup_as_str x ≡ s
unfolding parse_cleanup cleanup_as_str
cleanup_as_str-parse s x h = ground (
  arith,
  str_eq_iff s "pending",
  str_eq_iff s "complete",
  str_eq_iff s "incomplete",
  str_eq_iff s "unknown",
)

-- A text parses to a state, an outcome or a cleanup state exactly if it is the one that is written
-- for it: what is stored is read back, no two values share a name, and nothing else is read.
pub parse-as_str_iff :
    (s : String) (state : RunState) (outcome : RunOutcome) (cleanup : CleanupState)
    → ((parse_state s ≡ some state) ↔ (state_as_str state ≡ s))
      × ((parse_outcome s ≡ some outcome) ↔ (outcome_as_str outcome ≡ s))
      × ((parse_cleanup s ≡ some cleanup) ↔ (cleanup_as_str cleanup ≡ s))
parse-as_str_iff s state outcome cleanup = (
  (state_as_str-parse s state, (λ e. rw (← e) (parse-state_as_str state))),
  (outcome_as_str-parse s outcome, (λ e. rw (← e) (parse-outcome_as_str outcome))),
  (cleanup_as_str-parse s cleanup, (λ e. rw (← e) (parse-cleanup_as_str cleanup))),
)
