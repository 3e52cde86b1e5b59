-- ===== src/Config/Start.antt =====
-- What the limits of src/config.rs make of a scheduler of src/runner/scheduler.rs.
use wyd.Common.{
  ℕ, ◌≤◌, ◌<◌, ◌≡◌, refl, ◌⊎◌, inl, inr, Bool-cases, ltb, Option, some, [], ◌∷◌, arith, String,
  retain, true, sum_u64_from,
}
use wyd.Config.{RunsConfig, limits}
use wyd.Scheduler.{
  Duration, RunId, start, rejected, impossible, new, submit, can_admit, slots_free,
  project_slots_free, reserved,
}

admits :
    (c : RunsConfig) (project : String) (memory_bytes : ℕ)
    → memory_bytes ≤ (limits c).memory_budget_bytes
    → can_admit (new (limits c)) project memory_bytes ≡ true
unfolding new limits can_admit slots_free project_slots_free reserved retain sum_u64_from
admits c project memory_bytes h = ground arith

-- Whatever the configuration says, zeros included, a scheduler with its limits has a slot for the
-- first request, of any project: it starts at once if it is within the budget, and is refused as
-- impossible otherwise. It never waits.
limits-first_starts :
    (c : RunsConfig) (id : RunId) (project : String) (memory_bytes : ℕ)
    (queue_timeout : Option Duration) (now : Duration)
    → let s = new (limits c) in
      ((memory_bytes ≤ s.memory_budget_bytes)
        × (submit s id project memory_bytes queue_timeout now
            ≡ some (
              record s {
                running = record { id = id; project = project; memory_bytes = memory_bytes } ∷ [];
              },
              start memory_bytes,
            )))
      ⊎ ((s.memory_budget_bytes < memory_bytes)
          × (submit s id project memory_bytes queue_timeout now
              ≡ some (s, rejected (impossible memory_bytes s.memory_budget_bytes))))
unfolding submit new
limits-first_starts c id project memory_bytes queue_timeout now =
    let s = new (limits c) in
    elim (Bool-cases (ltb s.memory_budget_bytes memory_bytes)) [
      | inl over ↦ inr (ground arith, rw over refl)
      | inr within ↦
          let le : memory_bytes ≤ s.memory_budget_bytes = ground arith in
          inl (le, rw (within, admits c project memory_bytes le) refl)
    ]
