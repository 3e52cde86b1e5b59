-- ===== src/Grouping/Items.antt =====
-- Items of src/classify/group.rs, and how often a pid stands in what is built of them.
use wyd.Common.{
  ℕ, zero, suc, ◌+◌, ◌≤◌, ◌≡◌, refl, ap, ◌∙◌, sym, subst, inl, inr, Bool, true, false, not, Option,
  none, some, List, [], ◌∷◌, ◌++◌, ◌==◌, ==_iff, if◌then◌else◌, is_some, Bool-cases, Option-cases,
  All, All-append, arith,
}
use wyd.Runtime.{Children, no_more, ProcessInfo}
use wyd.Leftovers.{by_pid_of}
use wyd.Actions.{children_pids}
use wyd.Grouping.{Class, parent_of, nearest_from, nearest_item_ancestor}
use wyd.Grouping.Collapse.{occurrences, occurrences-append}
use wyd.Grouping.Forest.{memory_of, children_of, push_all, collect}
use wyd.Grouping.Build.{
  is_mcp, sort_pids, built, rollup_of, is_browser, class_of, has_category, keep_browser, is_item,
  is_item_of, is_kid, is_root, parent_item, kids, roots, rollup_browsers, rolled_up,
}
use wyd.Grouping.Chains.{
  sort_by_size-count, sort_pids-All, pids_of, filter-count, absent-count, up, then_up, up-suc,
}

pub class_of-absent :
    (classify : ProcessInfo → Option Class) (ps : List ProcessInfo) (pid : ℕ)
    → occurrences pid (pids_of ps) ≡ 0
    → class_of classify ps pid ≡ none
unfolding class_of
class_of-absent classify [] pid h = refl
class_of-absent classify (p ∷ ps) pid h = elim (Bool-cases (p.pid == pid)) [
  | inl e ↦ absurd (ground arith)
  | inr e ↦ rw (class_of-absent classify ps pid (ground arith), e) refl
]

-- What is found passes the test.
abbrev pub Found : (ℕ → Bool) → Option ℕ → Type 0
Found p none = Unit
Found p (some y) = p y ≡ true

nearest_from-Shown :
    (by_pid : ℕ → Option ProcessInfo) (is_item : ℕ → Bool) (n : ℕ) (cur : Option ℕ)
    → Found is_item (nearest_from by_pid is_item n cur)
unfolding nearest_from
nearest_from-Shown by_pid is_item zero cur = tt
nearest_from-Shown by_pid is_item (suc n) none = tt
nearest_from-Shown by_pid is_item (suc n) (some pid) = elim (Bool-cases (is_item pid)) [
  | inl e ↦ rw e e
  | inr e ↦ rw e (nearest_from-Shown by_pid is_item n (parent_of by_pid pid))
]

abbrev Kept : (ℕ → Bool) → Option (List ℕ) → Type 0
Kept keep none = Unit
Kept keep (some pids) = All (λ a. keep a ≡ true) pids

collect-Kept :
    (below : ℕ → List ℕ) (keep : ℕ → Bool) (rounds : ℕ) (stack out : List ℕ)
    → All (λ a. keep a ≡ true) out
    → Kept keep (collect below keep rounds stack out)
unfolding collect
collect-Kept below keep zero stack out h = tt
collect-Kept below keep (suc rounds) [] out h = h
collect-Kept below keep (suc rounds) (pid ∷ stack) out h =
    collect-Kept below keep rounds (push_all (below pid) stack)
      (if keep pid then out ++ pid ∷ [] else out)
      (elim (Bool-cases (keep pid)) [
        | inl e ↦ rw e (All-append _ out (pid ∷ []) h (e, tt))
        | inr e ↦ rw e h
      ])

-- How often a pid that may be missing stands in a list.
abbrev pub count_of : Option ℕ → List ℕ → ℕ
count_of none pids = 0
count_of (some y) pids = occurrences y pids

pub count_of-cons :
    (o : Option ℕ) (p : ℕ) (pids : List ℕ)
    → count_of o (p ∷ pids) ≡ count_of o (p ∷ []) + count_of o pids
count_of-cons none p pids = refl
count_of-cons (some y) p pids = omega arith

pub count_of-nil : (o : Option ℕ) → count_of o [] ≡ 0
count_of-nil none = refl
count_of-nil (some y) = refl

module _ (classify : ProcessInfo → Option Class) (looks_dev : ProcessInfo → Bool) (rounds : ℕ)
    (ps : List ProcessInfo) (distinct : (a : ℕ) → occurrences a (pids_of ps) ≤ 1) where
  abbrev shown : ℕ → Bool
  shown = is_item classify looks_dev rounds ps

  abbrev parent : ℕ → Option ℕ
  parent = parent_item classify looks_dev rounds ps

  pub shown-class : (x : ℕ) → class_of classify ps x ≡ none → shown x ≡ false
  unfolding is_item
  shown-class x e =
      ap
        (λ o. elim o as (λ _. Bool) [
          | none ↦ false
          | some c ↦ is_item_of classify looks_dev rounds ps c x
        ])
        e

  pub item-once : (x : ℕ) → shown x ≡ true → occurrences x (pids_of ps) ≡ 1
  item-once x h = elim (Bool-cases (occurrences x (pids_of ps) == 0)) [
    | inl z ↦ absurd (
        let hidden : shown x ≡ false =
          shown-class x (class_of-absent classify ps x ((==_iff _ 0).0 z)) in
        cc)
    | inr n ↦ let one = distinct x in ground arith
  ]

  abbrev Shown : Option ℕ → Type 0
  Shown = Found shown

  pub parent-Shown : (x : ℕ) → Shown (parent x)
  unfolding parent_item nearest_item_ancestor
  parent-Shown x = nearest_from-Shown (by_pid_of ps) shown 64 (parent_of (by_pid_of ps) x)

  pub up-Shown : (k x : ℕ) → shown x ≡ true → Shown (up parent k x)
  up-Shown zero x h = h
  up-Shown (suc k) x h = subst Shown (sym (up-suc parent k x)) (go (up parent k x))
    where
      go : (o : Option ℕ) → Shown (then_up parent o)
      go none = tt
      go (some y) = parent-Shown y

  is_parent-count :
      (y p : ℕ) (o : Option ℕ)
      → (if elim o as (λ _. Bool) [ none ↦ false | some a ↦ a == p ] then 1 else 0)
        ≡ count_of o (p ∷ [])
  is_parent-count y p none = refl
  is_parent-count y p (some a) = ground arith

  pub kids-count :
      (y p : ℕ)
      → shown y ≡ true
      → occurrences y (kids classify looks_dev rounds ps p) ≡ count_of (parent y) (p ∷ [])
  unfolding kids
  kids-count y p h =
      sort_by_size-count (memory_of ps) y _
      ∙ filter-count (is_kid classify looks_dev rounds ps p) y ps
      ∙ rw (h, item-once y h) (is_parent-count y p (parent y))

  is_root-count :
      (o : Option ℕ) → ◌≡◌ {A = ℕ} (if not (is_some o) then 1 else 0) (if is_some o then 0 else 1)
  is_root-count none = refl
  is_root-count (some y) = refl

  pub roots-count :
      (y : ℕ)
      → shown y ≡ true
      → occurrences y (roots classify looks_dev rounds ps) ≡ (if is_some (parent y) then 0 else 1)
  unfolding roots
  roots-count y h =
      sort_by_size-count (memory_of ps) y _
      ∙ filter-count (is_root classify looks_dev rounds ps) y ps
      ∙ rw (h, item-once y h) (is_root-count (parent y))

  rolled-count :
      (x : ℕ) (pids : List ℕ)
      → occurrences x (children_pids (rolled_up classify looks_dev rounds ps pids))
        ≡ occurrences x pids
  unfolding children_pids
  rolled-count x [] = refl
  rolled-count x (pid ∷ pids) =
      omega (arith, occurrences-append x (pids ++ []) [], occurrences-append x pids [])

  rollup-absent :
      (x p : ℕ)
      → has_category classify looks_dev rounds ps is_browser x ≡ false
      → occurrences x (children_pids (rollup_browsers classify looks_dev rounds ps p)) ≡ 0
  unfolding rollup_browsers keep_browser children_pids
  rollup-absent x p n = go _ (
      collect-Kept (children_of ps) (keep_browser classify looks_dev rounds ps) rounds
        (push_all (children_of ps p) []) [] tt)
    where
      go :
          (o : Option (List ℕ))
          → Kept (keep_browser classify looks_dev rounds ps) o
          → occurrences x (
              children_pids (elim o [
                | none ↦ no_more
                | some pids ↦ rolled_up classify looks_dev rounds ps (sort_pids pids)
              ]))
            ≡ 0
      go none h = refl
      go (some pids) h =
          rolled-count x (sort_pids pids)
          ∙ absent-count x (sort_pids pids) (keep_browser classify looks_dev rounds ps) (rw n refl)
              (sort_pids-All _ pids h)

  pub rollup_of-absent :
      (x p : ℕ)
      → has_category classify looks_dev rounds ps is_browser x ≡ false
      → occurrences x (children_pids (rollup_of classify looks_dev rounds ps p)) ≡ 0
  unfolding children_pids
  rollup_of-absent x p n = elim (Bool-cases (has_category classify looks_dev rounds ps is_mcp p)) [
    | inl e ↦ rw e (rollup-absent x p n)
    | inr e ↦ rw e refl
  ]

  pub built-count :
      (x p : ℕ) (o : Option Class) (below rest : Children)
      → is_some o ≡ true
      → occurrences x (children_pids (built classify looks_dev rounds ps o p below rest))
        ≡ occurrences x (p ∷ [])
          + occurrences x (children_pids below)
          + occurrences x (children_pids rest)
  unfolding children_pids
  built-count x p none below rest h = absurd (cc)
  built-count x p (some c) below rest h =
      omega (arith, occurrences-append x (p ∷ children_pids below) (children_pids rest))

  pub shown-is_some : (x : ℕ) → shown x ≡ true → is_some (class_of classify ps x) ≡ true
  shown-is_some x h = elim (Option-cases (class_of classify ps x)) [
    | inl e ↦ absurd (let hidden : shown x ≡ false = shown-class x e in cc)
    | inr (c, e) ↦ rw e refl
  ]

  pub kids-up :
      (x p k : ℕ)
      → shown x ≡ true
      → count_of (up parent k x) (kids classify looks_dev rounds ps p)
        ≡ count_of (up parent (suc k) x) (p ∷ [])
  kids-up x p k h =
      go (up parent k x) (up-Shown k x h) ∙ ap (λ o. count_of o (p ∷ [])) (sym (up-suc parent k x))
    where
      go :
          (o : Option ℕ)
          → Shown o
          → count_of o (kids classify looks_dev rounds ps p) ≡ count_of (then_up parent o) (p ∷ [])
      go none s = refl
      go (some y) s = kids-count y p s
