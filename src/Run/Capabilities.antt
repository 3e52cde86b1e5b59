-- ===== src/Run/Capabilities.antt =====
-- What the backend can enforce (src/model/run.rs), and the checks of a request against it
-- (src/runner/mod.rs). The platform and whether it has a delegated cgroup are arguments.
use wyd.Common.{
  ◌≡◌, refl, ◌↔◌, inl, inr, ℕ, Bool, true, false, Option, none, some, is_some, List, [], ◌∷◌, arith,
  if◌then◌else◌, Bool-cases,
}
use wyd.Run.{RunSpec, Enforcement, unenforced, hard}

pub data Platform : Type 0 where
  macos other : Platform

-- The texts that explain a capability.
pub data Note : Type 0 where
  rss_sampled macos_no_cgroup no_delegated_cgroup shared_filesystem : Note

pub data Capability : Type 0 where
  available : Capability
  monitored unavailable : Note → Capability

pub record BackendCapabilities : Type 0 where
  pub queue : Capability
  pub process_group_cleanup : Capability
  pub aggregate_memory_limit : Capability
  pub cpu_quota : Capability
  pub process_limit : Capability
  pub filesystem_isolation : Capability

unfoldable pub memory_capability : Platform → Bool → Capability
memory_capability macos cgroup = monitored rss_sampled
memory_capability other cgroup = if cgroup then available else unavailable no_delegated_cgroup

abbrev pub no_cgroup : Platform → Note
no_cgroup macos = macos_no_cgroup
no_cgroup other = no_delegated_cgroup

unfoldable pub backend_capabilities : Platform → Bool → BackendCapabilities
backend_capabilities platform cgroup = record {
  queue = available;
  process_group_cleanup = available;
  aggregate_memory_limit = memory_capability platform cgroup;
  cpu_quota = if cgroup then available else unavailable (no_cgroup platform);
  process_limit = if cgroup then available else unavailable (no_cgroup platform);
  filesystem_isolation = unavailable shared_filesystem;
}

pub data What : Type 0 where
  memory cpu process_count : What

-- The errors of `check_capabilities`: only monitoring is available, or nothing is.
pub data Refusal : Type 0 where
  only_monitoring not_available : What → Note → Refusal

abbrev pub refusal_of : What → Capability → Option Refusal
refusal_of what available = none
refusal_of what (monitored note) = some (only_monitoring what note)
refusal_of what (unavailable why) = some (not_available what why)

-- The loop over the checks: the first requested one that is not available.
unfoldable pub first_refusal : List (Bool × Capability × What) → Option Refusal
first_refusal [] = none
first_refusal ((requested, capability, what) ∷ checks) =
    let rest = first_refusal checks in
    let refusal = refusal_of what capability in
    if requested then (if is_some refusal then refusal else rest) else rest

abbrev pub is_hard : Enforcement → Bool
is_hard hard = true
is_hard _ = false

-- `none` is `Ok(())`.
unfoldable pub check_capabilities : Platform → Bool → RunSpec → Option Refusal
check_capabilities platform cgroup spec =
    let caps = backend_capabilities platform cgroup in
    let checks =
      (is_some spec.resources.memory_bytes, caps.aggregate_memory_limit, memory)
      ∷ (is_some spec.resources.cpu_millicores, caps.cpu_quota, cpu)
      ∷ (is_some spec.resources.processes, caps.process_limit, process_count)
      ∷ [] in
    if is_hard spec.resources.enforcement then first_refusal checks else none

pub record EffectiveLimits : Type 0 where
  pub memory_bytes : Option ℕ
  pub cpu_millicores : Option ℕ
  pub processes : Option ℕ
  pub enforcement : Enforcement
  pub metric : Option Note

abbrev pub effective_enforcement : Enforcement → Option ℕ → Enforcement
effective_enforcement Enforcement.monitored (some _) = Enforcement.monitored
effective_enforcement hard (some _) = hard
effective_enforcement _ _ = unenforced

abbrev pub metric_of : Enforcement → Option Note
metric_of Enforcement.monitored = some rss_sampled
metric_of _ = none

-- `effective_limits`, less its `backend`, which is always "process_group".
unfoldable pub effective_limits : RunSpec → EffectiveLimits
effective_limits spec =
    let enforcement =
      effective_enforcement spec.resources.enforcement spec.resources.memory_bytes in
    record {
      memory_bytes = spec.resources.memory_bytes;
      cpu_millicores = spec.resources.cpu_millicores;
      processes = spec.resources.processes;
      enforcement = enforcement;
      metric = metric_of enforcement;
    }

is_hard-eq : (e : Enforcement) → is_hard e ≡ true → e ≡ hard
is_hard-eq hard h = refl
is_hard-eq unenforced h = absurd (cc)
is_hard-eq Enforcement.monitored h = absurd (cc)

-- A hard request passes exactly if, for each of the three limits that it asks for, the platform
-- enforces that limit: a delegated cgroup off macOS for memory, any delegated cgroup for CPU and
-- process count. A request that is not hard always passes.
pub check_capabilities-passes_iff :
    (platform : Platform) (cgroup : Bool) (spec : RunSpec)
    → (check_capabilities platform cgroup spec ≡ none) ↔ (
        spec.resources.enforcement ≡ hard
        → (is_some spec.resources.memory_bytes ≡ true → (platform ≡ other) × (cgroup ≡ true))
          × (is_some spec.resources.cpu_millicores ≡ true → cgroup ≡ true)
          × (is_some spec.resources.processes ≡ true → cgroup ≡ true))
unfolding check_capabilities first_refusal backend_capabilities memory_capability
check_capabilities-passes_iff platform cgroup spec = (
  (λ passes h. (ground arith, ground arith, ground arith)),
  (λ needs. elim (Bool-cases (is_hard spec.resources.enforcement)) [
    | inl h ↦ let need = needs (is_hard-eq spec.resources.enforcement h) in ground arith
    | inr h ↦ rw h refl
  ]),
)
