-- ===== src/Leftovers.antt =====
-- src/classify/leftovers.rs: which items of the tree look like left over from an agent that is gone.
--
-- The clock and the tables made of the processes are arguments. A score is at most 185, far from
-- the end of a `u16`.
pub mod Scoring
pub mod Marks
mod Examples
use mathlib.Core.Option
use wyd.Common.{
  ℕ, zero, suc, ◌+◌, ◌-◌, ◌/◌, Bool, true, false, not, ◌&&◌, ◌||◌, Option, none, some, List, [],
  ◌∷◌, ◌++◌, ltb, leb, ◌==◌, if◌then◌else◌, is_some, min,
}
use wyd.Run.{Bytes}
use wyd.Runtime.{
  Category, agent, mcp, browser, dev_server, language_server, database, worker, dev_service,
  RuntimeState, persistent, suspicious, SuspicionReason, parent_exited, owning_agent_missing,
  mcp_owner_missing, headless_browser_detached, long_running_dev_server, long_running_worker,
  Suspicion, Head, RuntimeItem, item, Children, no_more, child, ProcessInfo,
}

-- `to_ascii_lowercase`.
abbrev pub lower_byte : ℕ → ℕ
lower_byte b = if leb 65 b && leb b 90 then b + 32 else b

unfoldable pub to_ascii_lowercase : Bytes → Bytes
to_ascii_lowercase [] = []
to_ascii_lowercase (b ∷ bs) = lower_byte b ∷ to_ascii_lowercase bs

unfoldable pub starts_with : Bytes → Bytes → Bool
starts_with bs [] = true
starts_with [] (n ∷ ns) = false
starts_with (b ∷ bs) (n ∷ ns) = b == n && starts_with bs ns

unfoldable pub contains : Bytes → Bytes → Bool
contains [] needle = starts_with [] needle
contains (b ∷ bs) needle = starts_with (b ∷ bs) needle || contains bs needle

-- `join(" ")`.
unfoldable pub join : List Bytes → Bytes
join [] = []
join (arg ∷ []) = arg
join (arg ∷ args) = arg ++ 32 ∷ join args

abbrev pub or_empty : Option Bytes → Bytes
or_empty none = []
or_empty (some bs) = bs

-- `ProcessInfo::hay`.
unfoldable pub hay : ProcessInfo → Bytes
hay p =
    to_ascii_lowercase p.name
    ++ 32 ∷ (to_ascii_lowercase (join p.command) ++ 32 ∷ to_ascii_lowercase (or_empty p.executable))

-- What of the configuration is read, and the time.
pub record Env : Type 0 where
  pub by_pid : ℕ → Option ProcessInfo
  pub commands : List Bytes
  pub server_age_hours : ℕ
  pub now : ℕ

-- The table of `mark`: where two processes have one pid, the later one counts.
unfoldable pub by_pid_of : List ProcessInfo → ℕ → Option ProcessInfo
by_pid_of [] pid = none
by_pid_of (p ∷ ps) pid = elim (by_pid_of ps pid) [
  | some q ↦ some q
  | none ↦ if p.pid == pid then some p else none
]

abbrev pub root_proc : Env → Head → Option ProcessInfo
root_proc env h = elim h.root_pid [ none ↦ none | some pid ↦ env.by_pid pid ]

-- The loop of `has_tty_ancestor`, with the rounds that its guard leaves.
unfoldable pub tty_from : ℕ → Env → ℕ → Bool
tty_from zero env pid = false
tty_from (suc rounds) env pid = elim (env.by_pid pid) [
  | none ↦ false
  | some p ↦
      if is_some p.tty
      then true
      else elim p.parent_pid [ none ↦ false | some ppid ↦ tty_from rounds env ppid ]
]

unfoldable pub has_tty_ancestor : Env → ProcessInfo → Bool
has_tty_ancestor env start = tty_from 64 env start.pid

-- The set `present` has the pids of the table.
unfoldable pub reparented : Env → ProcessInfo → Bool
reparented env p = elim p.parent_pid [
  | none ↦ true
  | some ppid ↦ ppid == 1 || not (is_some (env.by_pid ppid))
]

abbrev pub test {ℓ} : {A : Type ℓ} → (A → Bool) → Option A → Bool
test f none = false
test f (some a) = f a

-- "homebrew", "valet", "com.docker" and "docker desktop".
abbrev pub service_words : List Bytes
service_words =
    (104 ∷ 111 ∷ 109 ∷ 101 ∷ 98 ∷ 114 ∷ 101 ∷ 119 ∷ [])
    ∷ (118 ∷ 97 ∷ 108 ∷ 101 ∷ 116 ∷ [])
    ∷ (99 ∷ 111 ∷ 109 ∷ 46 ∷ 100 ∷ 111 ∷ 99 ∷ 107 ∷ 101 ∷ 114 ∷ [])
    ∷ (100 ∷ 111 ∷ 99 ∷ 107 ∷ 101 ∷ 114 ∷ 32 ∷ 100 ∷ 101 ∷ 115 ∷ 107 ∷ 116 ∷ 111 ∷ 112 ∷ [])
    ∷ []

unfoldable pub has_any : Bytes → List Bytes → Bool
has_any text [] = false
has_any text (w ∷ ws) = contains text w || has_any text ws

unfoldable pub has_command : Bytes → List Bytes → Bool
has_command text [] = false
has_command text (c ∷ cs) = contains text (to_ascii_lowercase c) || has_command text cs

abbrev pub is_session_kind : Category → Bool
is_session_kind language_server = true
is_session_kind database = true
is_session_kind _ = false

abbrev pub is_database : Category → Bool
is_database database = true
is_database _ = false

abbrev pub is_dev_service : Category → Bool
is_dev_service dev_service = true
is_dev_service _ = false

-- `exempt`, once the root process is known.
unfoldable pub exempt_proc : Env → Category → ProcessInfo → Bool
exempt_proc env category p =
    let text = hay p in
    if not (is_session_kind category) && has_any text service_words
    then true
    else if is_database category && test (λ ppid. ppid == 1) p.parent_pid
    then true
    else has_command text env.commands

unfoldable pub exempt : Env → Head → Bool
exempt env h =
    if is_dev_service h.category then true else test (exempt_proc env h.category) (root_proc env h)
