-- ===== src/Grouping.antt =====
-- src/classify/group.rs: the walks over the parents of a process, and the folding of helper processes
-- into the item that they belong to.
--
-- The map from pids to processes is a function, and the classes of processes and the tests on them are
-- arguments; the 64 rounds of the walks are the code's. The memory and CPU of items are left out.
pub mod Collapse
pub mod Ancestors
pub mod Forest
pub mod Build
pub mod Chains
pub mod Items
pub mod Once
mod Examples
use wyd.Common.{
  ℕ, zero, suc, Bool, true, false, ◌&&◌, ◌||◌, Option, none, some, List, [], ◌∷◌, ◌++◌, ◌==◌,
  if◌then◌else◌,
}
use wyd.Run.{Bytes}
use wyd.Runtime.{
  Category, agent, mcp, browser, dev_server, language_server, database, worker, unknown_dev,
  dev_service, Head, RuntimeItem, item, Children, no_more, child, ProcessInfo,
}
use wyd.Store.{bytes_eq}
use wyd.Leftovers.{contains}

-- The class that the rules give a process.
pub record Class : Type 0 where
  pub category : Category
  pub display_name : Bytes

abbrev pub parent_of : (ℕ → Option ProcessInfo) → ℕ → Option ℕ
parent_of by_pid pid = elim (by_pid pid) [ none ↦ none | some p ↦ p.parent_pid ]

-- The loop of `nearest_item_ancestor`, for the rounds that are left.
unfoldable pub nearest_from : (ℕ → Option ProcessInfo) → (ℕ → Bool) → ℕ → Option ℕ → Option ℕ
nearest_from by_pid is_item zero cur = none
nearest_from by_pid is_item (suc rounds) none = none
nearest_from by_pid is_item (suc rounds) (some ppid) =
    let rest = nearest_from by_pid is_item rounds (parent_of by_pid ppid) in
    if is_item ppid then some ppid else rest

unfoldable pub nearest_item_ancestor : (ℕ → Option ProcessInfo) → (ℕ → Bool) → ℕ → Option ℕ
nearest_item_ancestor by_pid is_item pid = nearest_from by_pid is_item 64 (parent_of by_pid pid)

abbrev pub owns_browsers : Category → Bool
owns_browsers mcp = true
owns_browsers agent = true
owns_browsers _ = false

-- "playwright".
abbrev pub playwright : Bytes
playwright = 112 ∷ 108 ∷ 97 ∷ 121 ∷ 119 ∷ 114 ∷ 105 ∷ 103 ∷ 104 ∷ 116 ∷ []

-- The test of `has_dev_browser_ancestor` on the class of an ancestor.
unfoldable pub is_dev_owner : (ℕ → Option Class) → ℕ → Bool
is_dev_owner class pid = elim (class pid) [
  | none ↦ false
  | some c ↦ owns_browsers c.category || contains c.display_name playwright
]

unfoldable pub has_owner_from : (ℕ → Option ProcessInfo) → (ℕ → Option Class) → ℕ → Option ℕ → Bool
has_owner_from by_pid class zero cur = false
has_owner_from by_pid class (suc rounds) none = false
has_owner_from by_pid class (suc rounds) (some ppid) =
    let rest = has_owner_from by_pid class rounds (parent_of by_pid ppid) in
    if is_dev_owner class ppid then true else rest

unfoldable pub has_dev_browser_ancestor : (ℕ → Option ProcessInfo) → (ℕ → Option Class) → ℕ → Bool
has_dev_browser_ancestor by_pid class pid = has_owner_from by_pid class 64 (parent_of by_pid pid)

abbrev category_number : Category → ℕ
category_number agent = 0
category_number mcp = 1
category_number browser = 2
category_number dev_server = 3
category_number language_server = 4
category_number database = 5
category_number worker = 6
category_number unknown_dev = 7
category_number dev_service = 8

-- `category == category && display_name == display_name`.
abbrev pub same_kind : Head → Head → Bool
same_kind a b =
    category_number a.category == category_number b.category
    && bytes_eq a.display_name b.display_name

unfoldable pub append_children : Children → Children → Children
append_children no_more js = js
append_children (child i is) js = child i (append_children is js)

-- The second loop of `collapse_same`: the pids taken over, the children kept and those absorbed.
pub record Folded : Type 0 where
  pub process_ids : List ℕ
  pub kept : Children
  pub absorbed : Children

unfoldable pub fold_same : Head → Children → Folded
fold_same h no_more = record { process_ids = []; kept = no_more; absorbed = no_more }
fold_same h (child (item g gs) rest) =
    let f = fold_same h rest in
    if same_kind g h
    then record f {
      process_ids = g.process_ids ++ f.process_ids;
      absorbed = append_children gs f.absorbed;
    }
    else record f { kept = child (item g gs) f.kept }

unfoldable mutual
  pub collapse_same : RuntimeItem → RuntimeItem
  collapse_same (item h children) =
      let f = fold_same h (collapse_all children) in
      item (record h { process_ids = h.process_ids ++ f.process_ids })
        (append_children f.kept f.absorbed)

  -- The loop over the items, or the children of one.
  pub collapse_all : Children → Children
  collapse_all no_more = no_more
  collapse_all (child i rest) = child (collapse_same i) (collapse_all rest)
