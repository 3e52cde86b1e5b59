-- ===== src/Config/Examples.antt =====
-- A configuration of src/config.rs with no slots.
use wyd.Common.{◌≡◌, refl}
use wyd.Config.{RunsConfig, default, limits}

abbrev no_slots : RunsConfig
no_slots = record default { max_parallel = 0; max_parallel_per_project = 0; max_queued = 0 }

-- One run at a time stays possible.
one_slot : (limits no_slots).max_parallel ≡ 1
unfolding limits
one_slot = refl
