-- ===== src/Grouping/Ancestors.antt =====
-- The walks of src/classify/group.rs over the parents of a process: searches of its nearest ancestors.
use wyd.Common.{
  ℕ, zero, suc, ◌≡◌, refl, ap, Bool, inl, inr, Option, none, some, Bool-cases, List, [], ◌∷◌,
  if◌then◌else◌, any, find?,
}
use wyd.Runtime.{ProcessInfo}
use wyd.Grouping.{
  Class, parent_of, nearest_from, nearest_item_ancestor, is_dev_owner, has_owner_from,
  has_dev_browser_ancestor,
}

module _ (by_pid : ℕ → Option ProcessInfo) where
  -- At most so many parents in a row, the nearest first; a process without an entry has none.
  unfoldable pub ancestors : ℕ → Option ℕ → List ℕ
  ancestors zero cur = []
  ancestors (suc n) none = []
  ancestors (suc n) (some pid) = pid ∷ ancestors n (parent_of by_pid pid)

  nearest_from-find? :
      (is_item : ℕ → Bool) (n : ℕ) (cur : Option ℕ)
      → nearest_from by_pid is_item n cur ≡ find? is_item (ancestors n cur)
  unfolding nearest_from ancestors find?
  nearest_from-find? is_item zero cur = refl
  nearest_from-find? is_item (suc n) none = refl
  nearest_from-find? is_item (suc n) (some pid) =
      ap (λ rest. if is_item pid then some pid else rest)
        (nearest_from-find? is_item n (parent_of by_pid pid))

  has_owner_from-any :
      (class : ℕ → Option Class) (n : ℕ) (cur : Option ℕ)
      → has_owner_from by_pid class n cur ≡ any (is_dev_owner class) (ancestors n cur)
  unfolding has_owner_from ancestors any
  has_owner_from-any class zero cur = refl
  has_owner_from-any class (suc n) none = refl
  has_owner_from-any class (suc n) (some pid) = elim (Bool-cases (is_dev_owner class pid)) [
    | inl e ↦ rw e refl
    | inr e ↦ rw e (has_owner_from-any class n (parent_of by_pid pid))
  ]

  -- Within 64 parents, `nearest_item_ancestor` is the first of them that is an item.
  nearest_item_ancestor-find? :
      (is_item : ℕ → Bool) (pid : ℕ)
      → nearest_item_ancestor by_pid is_item pid
        ≡ find? is_item (ancestors 64 (parent_of by_pid pid))
  unfolding nearest_item_ancestor
  nearest_item_ancestor-find? is_item pid = nearest_from-find? is_item 64 (parent_of by_pid pid)

  -- Within 64 parents, `has_dev_browser_ancestor` is whether one of them runs browsers.
  has_dev_browser_ancestor-any :
      (class : ℕ → Option Class) (pid : ℕ)
      → has_dev_browser_ancestor by_pid class pid
        ≡ any (is_dev_owner class) (ancestors 64 (parent_of by_pid pid))
  unfolding has_dev_browser_ancestor
  has_dev_browser_ancestor-any class pid = has_owner_from-any class 64 (parent_of by_pid pid)
