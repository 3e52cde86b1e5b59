-- ===== src/Leftovers/Examples.antt =====
-- Forests of src/classify/leftovers.rs, after its tests, and instances of the theorems.
use wyd.Common.{ℕ, ◌≡◌, refl, false, Option, none, some, [], ◌∷◌, total}
use wyd.Runtime.{
  Category, mcp, dev_server, active, Head, item, Children, no_more, child, ProcessInfo,
}
use wyd.Leftovers.{
  Env, by_pid_of, has_tty_ancestor, tty_from, reparented, exempt, exempt_proc, has_any, has_command,
  contains, starts_with, hay, to_ascii_lowercase, join,
}
use wyd.Leftovers.Scoring.{
  is_unowned, is_interactive, is_old, score_of, tally, judge, mark_head, mark, mark_children,
  mark_one, leftover_count, count_item, one_if,
}
use wyd.Leftovers.Marks.{
  is_left_over, Scored, Unmarked, UnmarkedAll, tops, mark_head-Scored, mark-leftover_count,
}

abbrev process : ℕ → Option ℕ → ProcessInfo
process pid parent_pid = record {
  pid = pid;
  parent_pid = parent_pid;
  name = 110 ∷ [];
  command = [];
  executable = none;
  cwd = none;
  memory_bytes = 0;
  start_time = 100;
  tty = none;
}

-- Process 10 was re-parented to pid 1; 20 runs under 21, and they have no terminal. 30 and 31 are each
-- other's parents.
abbrev env : Env
env = record {
  by_pid = by_pid_of (
      process 1 none
      ∷ process 10 (some 1)
      ∷ process 20 (some 21)
      ∷ process 21 (some 1)
      ∷ process 30 (some 31)
      ∷ process 31 (some 30)
      ∷ []);
  commands = [];
  server_age_hours = 8;
  now = 1000000;
}

abbrev head : Category → ℕ → Head
head category pid = record {
  category = category;
  display_name = [];
  root_pid = some pid;
  process_ids = pid ∷ [];
  state = active;
  suspicion = none;
  project = none;
}

-- A detached server, and an old dev server that still has its parent.
abbrev forest : Children
forest =
    child (item (head mcp 10) (child (item (head mcp 10) no_more) no_more))
      (child (item (head dev_server 20) no_more) no_more)

one_leftover : leftover_count (mark env forest) ≡ 1
unfolding leftover_count count_item mark mark_children mark_one mark_head judge score_of tally
    is_old is_interactive is_unowned has_tty_ancestor tty_from reparented exempt exempt_proc has_any
    has_command contains starts_with hay to_ascii_lowercase join by_pid_of
one_leftover = refl

cycle_ends : has_tty_ancestor env (process 30 (some 31)) ≡ false
unfolding has_tty_ancestor tty_from by_pid_of
cycle_ends = refl

-- The dev server of the forest: its age counts, and it is not marked.
mark_head-Scored_example :
    Scored (is_left_over env none (head dev_server 20)) (mark_head env none (head dev_server 20))
mark_head-Scored_example = mark_head-Scored env none (head dev_server 20) refl refl

forest-UnmarkedAll : UnmarkedAll forest
unfolding UnmarkedAll Unmarked
forest-UnmarkedAll = ((refl, refl, ((refl, refl, tt), tt)), ((refl, refl, tt), tt))

mark-leftover_count_example :
    leftover_count (mark env forest) ≡ total (λ h. one_if (is_left_over env none h)) (tops forest)
mark-leftover_count_example = mark-leftover_count env forest forest-UnmarkedAll
