-- ===== src/Config.antt =====
-- The `[runs]` table of src/config.rs, and the scheduler's limits that it stands for.
--
-- Reading the file is the toml library's. A `usize` and a `u64` are numbers below 2^64.
pub mod Start
mod Examples
use wyd.Common.{ℕ, ◌+◌, ◌-◌, ◌*◌, ◌^◌, Option, none, max, min}
use wyd.Scheduler.{Limits, Duration}

pub record RunsConfig : Type 0 where
  pub max_parallel : ℕ
  pub max_parallel_per_project : ℕ
  pub max_queued : ℕ
  pub queue_timeout_secs : ℕ
  pub memory_budget_mb : ℕ
  pub default_run_memory_mb : ℕ
  pub starvation_after_secs : ℕ
  pub cpu_budget_millicores : Option ℕ
  pub pids_budget : Option ℕ

-- `RunsConfig::default`.
abbrev pub default : RunsConfig
default = record {
  max_parallel = 4;
  max_parallel_per_project = 2;
  max_queued = 32;
  queue_timeout_secs = 600;
  memory_budget_mb = 8192;
  default_run_memory_mb = 512;
  starvation_after_secs = 60;
  cpu_budget_millicores = none;
  pids_budget = none;
}

-- `u64::saturating_mul`.
abbrev pub saturating_mul_u64 : ℕ → ℕ → ℕ
saturating_mul_u64 a b = min (a * b) (2 ^ 64 - 1)

-- `Duration::from_secs`.
abbrev pub from_secs : ℕ → Duration
from_secs secs = secs * 1000000000

unfoldable pub limits : RunsConfig → Limits
limits c = record {
  max_parallel = max c.max_parallel 1;
  max_parallel_per_project = max c.max_parallel_per_project 1;
  max_queued = c.max_queued;
  queue_timeout = from_secs c.queue_timeout_secs;
  memory_budget_bytes = saturating_mul_u64 c.memory_budget_mb (1024 * 1024);
  default_run_memory_bytes = saturating_mul_u64 c.default_run_memory_mb (1024 * 1024);
  starvation_after = from_secs c.starvation_after_secs;
  cpu_budget_millicores = c.cpu_budget_millicores;
  pids_budget = c.pids_budget;
}
