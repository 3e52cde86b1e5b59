-- ===== src/Actions/Examples.antt =====
-- An item of src/actions/process.rs with nested processes, one of them taken over, and processes that
-- are each other's parents.
use wyd.Common.{
  ℕ, ◌+◌, ◌≡◌, refl, none, some, Option, List, [], ◌∷◌, retain, any, arith, if◌then◌else◌, ◌==◌,
}
use wyd.Runtime.{
  Category, mcp, worker, active, Head, RuntimeItem, item, no_more, child, ProcessInfo,
}
use wyd.Actions.{
  Outcome, sent, gone, item_pids, kids_of, walk_all, walk, postorder, by_pid, freeze,
  identities_for, send_from, send, kill_item,
}
use wyd.Actions.Order.{Orders, postorder-Orders}
use wyd.Actions.KidsFirst.{KidsFirst, postorder-KidsFirst}
use wyd.Actions.Sending.{Kills, kill_item-Kills}

abbrev process : ℕ → Option ℕ → ProcessInfo
process pid parent_pid = record {
  pid = pid;
  parent_pid = parent_pid;
  name = 110 ∷ [];
  command = [];
  executable = none;
  cwd = none;
  memory_bytes = 0;
  start_time = 100 + pid;
  tty = none;
}

-- 30 and 31 are each other's parents; 12 is below 11, which is below 10.
abbrev processes : List ProcessInfo
processes =
    process 10 none
    ∷ process 11 (some 10)
    ∷ process 12 (some 11)
    ∷ process 30 (some 31)
    ∷ process 31 (some 30)
    ∷ []

abbrev head : Category → List ℕ → Head
head category pids = record {
  category = category;
  display_name = [];
  root_pid = none;
  process_ids = pids;
  state = active;
  suspicion = none;
  project = none;
}

abbrev server : RuntimeItem
server = item (head mcp (10 ∷ 12 ∷ [])) (child (item (head worker (11 ∷ 10 ∷ [])) no_more) no_more)

-- Process 12 was replaced by another one.
abbrev live : ℕ → Option ℕ
live pid = if pid == 12 then some 5000 else some (100 + pid)

abbrev kill : ℕ → Outcome
kill pid = if pid == 10 then gone else sent

in_order : postorder (10 ∷ 12 ∷ 11 ∷ []) processes ≡ some (12 ∷ 11 ∷ 10 ∷ [])
unfolding postorder walk_all walk kids_of any retain
in_order = refl

in_circle : postorder (30 ∷ 31 ∷ []) processes ≡ some (31 ∷ 30 ∷ [])
unfolding postorder walk_all walk kids_of any retain
in_circle = refl

killed :
    kill_item live kill server processes
    ≡ some (record { signaled = 1; skipped = 2; failed = 0 }, 11 ∷ 10 ∷ [])
unfolding kill_item identities_for item_pids freeze by_pid send send_from postorder walk_all walk
    kids_of any retain
killed = refl

postorder-Orders_example : Orders (30 ∷ 31 ∷ []) processes
postorder-Orders_example = postorder-Orders (30 ∷ 31 ∷ []) processes

abbrev chain : List ProcessInfo
chain = process 10 none ∷ process 11 (some 10) ∷ process 12 (some 11) ∷ []

postorder-KidsFirst_example :
    (out : List ℕ) × (postorder (10 ∷ 12 ∷ 11 ∷ []) chain ≡ some out)
    × KidsFirst (kids_of (10 ∷ 12 ∷ 11 ∷ []) chain) [] out
postorder-KidsFirst_example =
    postorder-KidsFirst (λ pid. pid) (10 ∷ 12 ∷ 11 ∷ []) chain
      (tt, (omega arith, (omega arith, tt)))

kill_item-Kills_example : Kills live kill server processes
kill_item-Kills_example = kill_item-Kills live kill server processes
