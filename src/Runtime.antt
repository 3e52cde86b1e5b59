-- ===== src/Runtime.antt =====
-- src/model/runtime.rs and src/model/process.rs: the tree of runtime items that the classifiers read,
-- and the processes behind it.
--
-- A `Vec` of items is `Children`. The memory, the CPU share and the ports of an item are left out, and so
-- is the CPU share of a process: nothing here reads them.
use wyd.Common.{ℕ, Option, List}
use wyd.Run.{Bytes}

pub data Category : Type 0 where
  agent mcp browser dev_server language_server database worker unknown_dev dev_service : Category

pub data RuntimeState : Type 0 where
  active persistent suspicious : RuntimeState

pub data SuspicionReason : Type 0 where
  parent_exited owning_agent_missing mcp_owner_missing headless_browser_detached : SuspicionReason
  long_running_dev_server long_running_worker session_owner_ended : SuspicionReason

pub record Project : Type 0 where
  pub name : Bytes
  pub root : Bytes

pub record Suspicion : Type 0 where
  pub score : ℕ
  pub reasons : List SuspicionReason

-- The fields of a `RuntimeItem` other than its children.
pub record Head : Type 0 where
  pub category : Category
  pub display_name : Bytes
  pub root_pid : Option ℕ
  pub process_ids : List ℕ
  pub state : RuntimeState
  pub suspicion : Option Suspicion
  pub project : Option Project

mutual
  pub data RuntimeItem : Type 0 where
    item : Head → Children → RuntimeItem

  pub data Children : Type 0 where
    no_more : Children
    child : RuntimeItem → Children → Children

-- A path or text is its bytes; a start time of 0 is unknown.
pub record ProcessInfo : Type 0 where
  pub pid : ℕ
  pub parent_pid : Option ℕ
  pub name : Bytes
  pub command : List Bytes
  pub executable : Option Bytes
  pub cwd : Option Bytes
  pub memory_bytes : ℕ
  pub start_time : ℕ
  pub tty : Option Bytes
