-- ===== src/Grouping/Build.antt =====
-- `group` of src/classify/group.rs: which processes are items, which item each is below, and the tree of
-- them.
--
-- The class that the rules give a process, and their test of a browser's command, are arguments. A map
-- keyed by pids is a function, and the last of two entries counts. `rounds` bounds the loops below a
-- process, and `depth` the recursion of `build_item`. The memory and CPU of items are left out.
use wyd.Common.{
  ℕ, zero, suc, Bool, true, false, not, ◌&&◌, ◌||◌, Option, none, some, List, [], ◌∷◌, map, leb,
  ◌==◌, if◌then◌else◌, is_some, retain, any,
}
use wyd.Run.{Bytes}
use wyd.Runtime.{
  Category, mcp, browser, unknown_dev, active, Head, item, Children, no_more, child, ProcessInfo,
}
use wyd.Leftovers.{by_pid_of}
use wyd.Grouping.{
  Class, nearest_item_ancestor, has_dev_browser_ancestor, append_children, collapse_all,
}
use wyd.Grouping.Forest.{memory_of, sort_by_size, children_of, push_all, search, collect}

abbrev pub is_browser : Category → Bool
is_browser browser = true
is_browser _ = false

abbrev pub is_unknown : Category → Bool
is_unknown unknown_dev = true
is_unknown _ = false

abbrev pub is_mcp : Category → Bool
is_mcp mcp = true
is_mcp _ = false

abbrev is_empty {ℓ} : {A : Type ℓ} → List A → Bool
is_empty [] = true
is_empty _ = false

-- "Chromium".
abbrev chromium : Bytes
chromium = 67 ∷ 104 ∷ 114 ∷ 111 ∷ 109 ∷ 105 ∷ 117 ∷ 109 ∷ []

-- The map `class`.
unfoldable pub class_of : (ProcessInfo → Option Class) → List ProcessInfo → ℕ → Option Class
class_of classify [] pid = none
class_of classify (p ∷ ps) pid = elim (class_of classify ps pid) [
  | some c ↦ some c
  | none ↦ if p.pid == pid then classify p else none
]

-- `sort_unstable`: the entries are numbers.
unfoldable pub insert_pid : ℕ → List ℕ → List ℕ
insert_pid x [] = x ∷ []
insert_pid x (y ∷ ys) = let rest = insert_pid x ys in if leb x y then x ∷ y ∷ ys else y ∷ rest

unfoldable pub sort_pids : List ℕ → List ℕ
sort_pids [] = []
sort_pids (x ∷ xs) = insert_pid x (sort_pids xs)

-- An item that stands for processes of one class.
abbrev pub head_of : Category → Bytes → ℕ → List ℕ → Head
head_of category display_name root pids = record {
  category = category;
  display_name = display_name;
  root_pid = some root;
  process_ids = pids;
  state = active;
  suspicion = none;
  project = none;
}

module _ (classify : ProcessInfo → Option Class) (browser_cmd_looks_dev : ProcessInfo → Bool)
    (rounds : ℕ) (ps : List ProcessInfo) where
  abbrev class : ℕ → Option Class
  class pid = class_of classify ps pid

  abbrev pub has_category : (Category → Bool) → ℕ → Bool
  has_category p pid = elim (class pid) [ none ↦ false | some c ↦ p c.category ]

  unfoldable pub keep_browser : ℕ → Bool
  keep_browser pid =
      has_category is_browser pid
      && any
          (λ (p : ProcessInfo).
            p.pid == pid
            && (browser_cmd_looks_dev p
                || has_dev_browser_ancestor (by_pid_of ps) (class_of classify ps) p.pid))
          ps

  unfoldable pub is_classified : ℕ → Bool
  is_classified pid = elim (class pid) [
    | none ↦ false
    | some c ↦ if is_browser c.category then keep_browser pid else true
  ]

  abbrev pub has_classified_descendant : ℕ → Bool
  has_classified_descendant pid =
      elim (search (children_of ps) is_classified rounds (push_all (children_of ps pid) [])) [
        | none ↦ false
        | some b ↦ b
      ]

  unfoldable pub wrapper : ℕ → Bool
  wrapper pid = has_category is_unknown pid && has_classified_descendant pid

  abbrev has_command : ℕ → Bool
  has_command pid = elim (by_pid_of ps pid) [ none ↦ false | some p ↦ not (is_empty p.command) ]

  -- The test of `is_item` on a process of a class.
  abbrev pub is_item_of : Class → ℕ → Bool
  is_item_of c pid =
      is_classified pid
      && not (wrapper pid)
      && not (
          is_browser c.category
          && has_dev_browser_ancestor (by_pid_of ps) (class_of classify ps) pid)
      && not (is_unknown c.category && not (has_command pid))

  unfoldable pub is_item : ℕ → Bool
  is_item pid = elim (class pid) [ none ↦ false | some c ↦ is_item_of c pid ]

  -- The entry of an item in the map `parent_item`.
  unfoldable pub parent_item : ℕ → Option ℕ
  parent_item pid = nearest_item_ancestor (by_pid_of ps) is_item pid

  abbrev pub is_kid : ℕ → ℕ → Bool
  is_kid par pid =
      is_item pid && elim (parent_item pid) as (λ _. Bool) [ none ↦ false | some a ↦ a == par ]

  abbrev pub is_root : ℕ → Bool
  is_root pid = is_item pid && not (is_some (parent_item pid))

  unfoldable pub kids : ℕ → List ℕ
  kids par =
      sort_by_size (memory_of ps)
        (map (λ p. p.pid) (retain (λ (p : ProcessInfo). is_kid par p.pid) ps))

  unfoldable pub roots : List ℕ
  roots =
      sort_by_size (memory_of ps)
        (map (λ p. p.pid) (retain (λ (p : ProcessInfo). is_root p.pid) ps))

  abbrev name_of : Bytes → ℕ → Bytes
  name_of other pid = elim (class pid) as (λ _. Bytes) [ none ↦ other | some c ↦ c.display_name ]

  abbrev pub rolled_up : List ℕ → Children
  rolled_up [] = no_more
  rolled_up (pid ∷ pids) =
      child (item (head_of browser (name_of chromium pid) pid (pid ∷ pids)) no_more) no_more

  unfoldable pub rollup_browsers : ℕ → Children
  rollup_browsers pid =
      elim (collect (children_of ps) keep_browser rounds (push_all (children_of ps pid) []) []) [
        | none ↦ no_more
        | some pids ↦ rolled_up (sort_pids pids)
      ]

  -- An item with what is below it, before others; `class[&pid]` is there for an item.
  abbrev pub built : Option Class → ℕ → Children → Children → Children
  built none pid below rest = rest
  built (some c) pid below rest =
      child (item (head_of c.category c.display_name pid (pid ∷ [])) below) rest

  abbrev pub rollup_of : ℕ → Children
  rollup_of pid = if has_category is_mcp pid then rollup_browsers pid else no_more

  -- `build_item` of each of some processes.
  unfoldable pub build_items : ℕ → List ℕ → Children
  build_items zero pids = no_more
  build_items (suc depth) [] = no_more
  build_items (suc depth) (pid ∷ pids) =
      let below = build_items depth (kids pid) in
      let rest = build_items (suc depth) pids in
      built (class pid) pid (append_children below (rollup_of pid)) rest

  unfoldable pub group : ℕ → Children
  group depth = collapse_all (build_items depth roots)
