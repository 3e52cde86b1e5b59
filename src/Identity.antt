-- ===== src/Identity.antt =====
-- src/model/process.rs, src/model/session.rs and the resource ids of src/classify/ownership/mod.rs:
-- identities of processes, and the ids of sessions and resources that are derived from them.
--
-- A boot id is a `u128`, a pid a `u32`, a start time a `u64`; an agent's name is its bytes.
pub mod Hash
pub mod Ids
mod Examples
use Prim.Native.Nat.{bit_xor}
use wyd.Common.{
  ℕ, zero, suc, ◌*◌, ◌/◌, ◌%◌, ◌^◌, ◌<◌, Bool, Option, none, some, List, [], ◌∷◌, ◌==◌,
  if◌then◌else◌, u64,
}
use wyd.Run.{Bytes, to_le_bytes}

pub record ProcessIdentity : Type 0 where
  pub boot_id : ℕ
  pub pid : ℕ
  pub start_time : ℕ

-- `from_process`: a start time of 0 is unknown, and gives no identity.
unfoldable pub from_process : ℕ → ℕ → ℕ → Option ProcessIdentity
from_process boot_id pid start_time =
    if start_time == 0
    then none
    else some (record { boot_id = boot_id; pid = pid; start_time = start_time })

abbrev pub fnv_offset : ℕ
fnv_offset = 0xcbf29ce484222325

abbrev pub fnv_prime : ℕ
fnv_prime = 0x100000001b3

-- The inner loop, over the bytes of one part.
unfoldable pub fnv_part : ℕ → Bytes → ℕ
fnv_part h [] = h
fnv_part h (b ∷ part) = fnv_part (u64 (bit_xor h b * fnv_prime)) part

unfoldable pub fnv_parts : ℕ → List Bytes → ℕ
fnv_parts h [] = h
fnv_parts h (part ∷ parts) = fnv_parts (fnv_part h part) parts

unfoldable pub fnv1a : List Bytes → ℕ
fnv1a parts = fnv_parts fnv_offset parts

-- What `RuntimeSessionId::new` hashes.
abbrev pub session_parts : ProcessIdentity → Bytes → List Bytes
session_parts root agent =
    to_le_bytes 16 root.boot_id
    ∷ to_le_bytes 4 root.pid
    ∷ to_le_bytes 8 root.start_time
    ∷ agent
    ∷ []

unfoldable pub session_id : ProcessIdentity → Bytes → ℕ
session_id root agent = fnv1a (session_parts root agent)

-- What `ResourceId::of_root` hashes.
abbrev pub resource_parts : ProcessIdentity → List Bytes
resource_parts root =
    to_le_bytes 16 root.boot_id ∷ to_le_bytes 4 root.pid ∷ to_le_bytes 8 root.start_time ∷ []

unfoldable pub resource_id : ProcessIdentity → ℕ
resource_id root = fnv1a (resource_parts root)
