-- ===== src/Grouping/Examples.antt =====
-- An item of src/classify/group.rs with helpers of its own kind, and an instance of the theorem.
use wyd.Common.{
  ℕ, ◌-◌, ◌≡◌, ◌≤◌, ◌==◌, refl, Option, some, none, Bool, true, false, List, [], ◌∷◌, All, is_some,
  if◌then◌else◌, arith, retain, any,
}
use wyd.Runtime.{
  Category, mcp, worker, active, Head, RuntimeItem, item, no_more, child, ProcessInfo,
}
use wyd.Store.{bytes_eq}
use wyd.Actions.{item_pids, children_pids}
use wyd.Leftovers.{by_pid_of, contains, starts_with}
use wyd.Grouping.{
  Class, collapse_all, has_dev_browser_ancestor, has_owner_from, is_dev_owner, nearest_from,
  nearest_item_ancestor, append_children, fold_same, collapse_same,
}
use wyd.Grouping.Build.{
  build_items, roots, kids, keep_browser, insert_pid, sort_pids, rollup_browsers, head_of, class_of,
  group, is_item, is_classified, wrapper, parent_item,
}
use wyd.Grouping.Chains.{pids_of}
use wyd.Grouping.Once.{group-once}
use wyd.Grouping.Forest.{sort_by_size, insert_by_size, children_of, push_all, search, collect}
use wyd.Grouping.Forest.Ends.{Falls, size, size_to, descents, descents-end}
use wyd.Grouping.Collapse.{occurrences, Collapsed, collapse_same-folds}

abbrev head : Category → List ℕ → Head
head category pids = record {
  category = category;
  display_name = 111 ∷ [];
  root_pid = none;
  process_ids = pids;
  state = active;
  suspicion = none;
  project = none;
}

-- A worker with a worker below it, which has a server.
abbrev workers : RuntimeItem
workers = item (head worker (10 ∷ [])) (
    child (item (head worker (11 ∷ [])) (child (item (head mcp (12 ∷ [])) no_more) no_more))
      no_more)

folded :
    collapse_same workers
    ≡ item (head worker (10 ∷ 11 ∷ [])) (child (item (head mcp (12 ∷ [])) no_more) no_more)
unfolding collapse_same fold_same append_children bytes_eq
folded = refl

collapse_same-folds_example :
    ((a : ℕ)
      → occurrences a (item_pids (collapse_same workers)) ≡ occurrences a (item_pids workers))
    × Collapsed (collapse_same workers)
collapse_same-folds_example = collapse_same-folds workers

abbrev process : ℕ → Option ℕ → ℕ → ProcessInfo
process pid parent_pid letter = record {
  pid = pid;
  parent_pid = parent_pid;
  name = letter ∷ [];
  command = (letter ∷ []) ∷ [];
  executable = none;
  cwd = none;
  memory_bytes = pid;
  start_time = 1000;
  tty = none;
}

-- The first process of the system, a shell, an agent, its server and a browser of that.
abbrev snapshot : List ProcessInfo
snapshot =
    process 1 none 105
    ∷ process 5 (some 1) 115
    ∷ process 10 (some 5) 97
    ∷ process 11 (some 10) 109
    ∷ process 12 (some 11) 98
    ∷ []

abbrev rules : ProcessInfo → Option Class
rules p = elim p.name [
  | [] ↦ none
  | letter ∷ _ ↦
      if letter == 97
      then some (record { category = Category.agent; display_name = p.name })
      else if letter == 109
      then some (record { category = mcp; display_name = p.name })
      else if letter == 98
      then some (record { category = Category.browser; display_name = p.name })
      else none
]

abbrev looks_dev : ProcessInfo → Bool
looks_dev _ = false

snapshot-distinct : (a : ℕ) → occurrences a (pids_of snapshot) ≤ 1
snapshot-distinct a = ground arith

group-once_example :
    occurrences 11 (children_pids (group rules looks_dev 9 snapshot 3))
    ≡ (if is_item rules looks_dev 9 snapshot 11 then 1 else 0)
unfolding class_of parent_item nearest_item_ancestor nearest_from is_item is_classified wrapper
    by_pid_of
group-once_example = group-once rules looks_dev 9 snapshot snapshot-distinct 3 11 refl refl

grouped :
    group rules looks_dev 9 snapshot 3
    ≡ child
        (item (head_of Category.agent (97 ∷ []) 10 (10 ∷ [])) (
          child
            (item
              (head_of mcp (109 ∷ []) 11 (11 ∷ []))
              (child (item (head_of Category.browser (98 ∷ []) 12 (12 ∷ [])) no_more) no_more))
            no_more))
        no_more
unfolding group collapse_all build_items roots kids sort_by_size insert_by_size retain is_item
    class_of is_classified wrapper parent_item nearest_item_ancestor nearest_from by_pid_of
    keep_browser any insert_pid rollup_browsers sort_pids children_of collect push_all search
    append_children fold_same has_dev_browser_ancestor has_owner_from is_dev_owner contains
    starts_with bytes_eq
grouped = refl

snapshot-Falls : All (Falls (λ pid. 20 - pid)) snapshot
snapshot-Falls = (tt, (omega arith, (omega arith, (omega arith, (omega arith, tt)))))

descents-end_example :
    let stack = push_all (children_of snapshot 10) [] in
    (is_some (search (children_of snapshot) (λ pid. pid == 12) 9 stack) ≡ true)
    × (is_some (collect (children_of snapshot) (λ pid. pid == 12) 9 stack []) ≡ true)
unfolding descents size size_to children_of push_all sort_by_size insert_by_size retain any
    by_pid_of
descents-end_example =
    descents-end (λ pid. 20 - pid) snapshot (λ pid. pid == 12) 10 9 snapshot-Falls (omega arith)
