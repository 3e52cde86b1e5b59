-- ===== src/Grouping/Forest.antt =====
-- src/classify/tree.rs, the children of a process in a snapshot, and the loops of src/classify/group.rs
-- that go through what is below one.
--
-- A stack has its top first. The loops run for a number of rounds that is an argument: they end by
-- themselves where the parents make no cycle, and `none` is a loop that is still running.
pub mod Ends
use wyd.Common.{
  ℕ, zero, suc, Bool, true, false, ◌&&◌, Option, none, some, List, [], ◌∷◌, ◌++◌, map, leb, ◌==◌,
  if◌then◌else◌, retain, any,
}
use wyd.Runtime.{ProcessInfo}
use wyd.Leftovers.{by_pid_of}
use wyd.Actions.{is_parent}

abbrev pub memory_of : List ProcessInfo → ℕ → ℕ
memory_of ps pid = elim (by_pid_of ps pid) [ none ↦ 0 | some p ↦ p.memory_bytes ]

-- `sort_by_key` with `Reverse`, which is stable: the larger keys first.
unfoldable pub insert_by_size : (ℕ → ℕ) → ℕ → List ℕ → List ℕ
insert_by_size key x [] = x ∷ []
insert_by_size key x (y ∷ ys) =
    let rest = insert_by_size key x ys in if leb (key y) (key x) then x ∷ y ∷ ys else y ∷ rest

unfoldable pub sort_by_size : (ℕ → ℕ) → List ℕ → List ℕ
sort_by_size key [] = []
sort_by_size key (x ∷ xs) = insert_by_size key x (sort_by_size key xs)

-- The entry of `pid` in the map that `Forest::build` makes.
unfoldable pub children_of : List ProcessInfo → ℕ → List ℕ
children_of ps pid = sort_by_size (memory_of ps) (
    map (λ p. p.pid)
      (retain (λ (p : ProcessInfo). is_parent pid p && any (λ (q : ProcessInfo). q.pid == pid) ps)
        ps))

-- `extend_from_slice` of a stack.
unfoldable pub push_all : List ℕ → List ℕ → List ℕ
push_all [] stack = stack
push_all (x ∷ xs) stack = push_all xs (x ∷ stack)

module _ (below : ℕ → List ℕ) where
  -- The loop of `has_classified_descendant`.
  unfoldable pub search : (ℕ → Bool) → ℕ → List ℕ → Option Bool
  search found zero stack = none
  search found (suc rounds) [] = some false
  search found (suc rounds) (pid ∷ stack) =
      let rest = search found rounds (push_all (below pid) stack) in
      if found pid then some true else rest

  -- The loop of `rollup_browsers`: the pids that it collects.
  unfoldable pub collect : (ℕ → Bool) → ℕ → List ℕ → List ℕ → Option (List ℕ)
  collect keep zero stack out = none
  collect keep (suc rounds) [] out = some out
  collect keep (suc rounds) (pid ∷ stack) out =
      collect keep rounds (push_all (below pid) stack) (if keep pid then out ++ pid ∷ [] else out)
