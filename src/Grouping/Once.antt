-- ===== src/Grouping/Once.antt =====
-- The tree of `group` of src/classify/group.rs shows each item once.
use wyd.Common.{
  ℕ, zero, suc, ◌≤◌, ◌≡◌, refl, ap, ◌∙◌, sym, subst, inl, inr, Bool, true, false, Option, none,
  some, List, [], ◌∷◌, if◌then◌else◌, Bool-cases, Option-cases, All, All-map, and-eq_true, arith,
}
use wyd.Runtime.{ProcessInfo}
use wyd.Actions.{children_pids}
use wyd.Grouping.{Class, append_children}
use wyd.Grouping.Collapse.{occurrences, occurrences-append, children_pids-append, collapse_all-pids}
use wyd.Grouping.Forest.{memory_of}
use wyd.Grouping.Build.{
  rollup_of, is_browser, class_of, has_category, is_item, is_kid, is_root, parent_item, kids, roots,
  build_items, group,
}
use wyd.Grouping.Chains.{
  sum_to, sum_to-add, sum_to-same, sum_to-zero, sort_by_size-All, pids_of, filter-All, absent-count,
  up,
}
use wyd.Grouping.Items.{
  count_of, count_of-cons, count_of-nil, Found, rollup_of-absent, built-count, shown-is_some,
  kids-up, roots-count, parent-Shown,
}

module _ (classify : ProcessInfo → Option Class) (looks_dev : ProcessInfo → Bool) (rounds : ℕ)
    (ps : List ProcessInfo) (distinct : (a : ℕ) → occurrences a (pids_of ps) ≤ 1) where
  abbrev shown : ℕ → Bool
  shown = is_item classify looks_dev rounds ps

  abbrev parent : ℕ → Option ℕ
  parent = parent_item classify looks_dev rounds ps

  kids-Shown : (p : ℕ) → All (λ a. shown a ≡ true) (kids classify looks_dev rounds ps p)
  unfolding kids
  kids-Shown p =
      sort_by_size-All (λ a. shown a ≡ true) (memory_of ps) _
        (All-map (λ a h. (and-eq_true (shown a) _ h).0) _
          (filter-All (is_kid classify looks_dev rounds ps p) ps))

  roots-Shown : All (λ a. shown a ≡ true) (roots classify looks_dev rounds ps)
  unfolding roots
  roots-Shown =
      sort_by_size-All (λ a. shown a ≡ true) (memory_of ps) _
        (All-map (λ a h. (and-eq_true (shown a) _ h).0) _
          (filter-All (is_root classify looks_dev rounds ps) ps))

  build-count :
      (x depth : ℕ) (pids : List ℕ)
      → shown x ≡ true
      → has_category classify looks_dev rounds ps is_browser x ≡ false
      → All (λ a. shown a ≡ true) pids
      → occurrences x (children_pids (build_items classify looks_dev rounds ps depth pids))
        ≡ sum_to depth (λ k. count_of (up parent k x) pids)
  unfolding build_items children_pids
  build-count x zero pids h n all = refl
  build-count x (suc depth) [] h n all = sym (
      sum_to-zero (suc depth) (λ k. count_of (up parent k x) [])
        (λ k. count_of-nil (up parent k x)))
  build-count x (suc depth) (p ∷ pids) h n all =
      let below =
        build_items classify looks_dev rounds ps depth (kids classify looks_dev rounds ps p) in
      let rest = build_items classify looks_dev rounds ps (suc depth) pids in
      let rollup = rollup_of classify looks_dev rounds ps p in
      let appended =
        ap (occurrences x) (children_pids-append below rollup)
        ∙ occurrences-append x (children_pids below) (children_pids rollup) in
      let here =
        built-count classify looks_dev rounds ps distinct x p (class_of classify ps p)
          (append_children below rollup) rest
          (shown-is_some classify looks_dev rounds ps distinct p all.0) in
      let under =
        build-count x depth (kids classify looks_dev rounds ps p) h n (kids-Shown p)
        ∙ sum_to-same depth _ (λ k. count_of (up parent (suc k) x) (p ∷ []))
            (λ k. kids-up classify looks_dev rounds ps distinct x p k h) in
      let split =
        sum_to-add (suc depth) (λ k. count_of (up parent k x) (p ∷ []))
          (λ k. count_of (up parent k x) pids) (λ k. count_of (up parent k x) (p ∷ pids))
          (λ k. count_of-cons (up parent k x) p pids) in
      omega (
        arith,
        here,
        appended,
        under,
        split,
        rollup_of-absent classify looks_dev rounds ps distinct x p n,
        build-count x (suc depth) pids h n all.1,
      )

  abbrev up_from : ℕ → Option ℕ → Option ℕ
  up_from k none = none
  up_from k (some y) = up parent k y

  up-from : (k x : ℕ) (o : Option ℕ) → parent x ≡ o → up parent (suc k) x ≡ up_from k o
  up-from k x none e =
      ap (λ o. elim o as (λ _. Option ℕ) [ none ↦ none | some y ↦ up parent k y ]) e
  up-from k x (some y) e =
      ap (λ o. elim o as (λ _. Option ℕ) [ none ↦ none | some z ↦ up parent k z ]) e

  -- An item whose chain of items ends is below one of the roots, once.
  roots-sum :
      (depth x : ℕ)
      → shown x ≡ true
      → up parent depth x ≡ none
      → sum_to depth (λ j. count_of (up parent j x) (roots classify looks_dev rounds ps)) ≡ 1
  roots-sum zero x h e = absurd (cc)
  roots-sum (suc depth) x h e = elim (Option-cases (parent x)) [
    | inl top ↦
        let here : occurrences x (roots classify looks_dev rounds ps) ≡ 1 =
          roots-count classify looks_dev rounds ps distinct x h ∙ rw top refl in
        let above =
          sum_to-zero depth
            (λ j. count_of (up parent (suc j) x) (roots classify looks_dev rounds ps))
            (λ j.
              ap (λ o. count_of o (roots classify looks_dev rounds ps)) (up-from j x none top)) in
        omega (arith, here, above)
    | inr (y, below) ↦
        let here : occurrences x (roots classify looks_dev rounds ps) ≡ 0 =
          roots-count classify looks_dev rounds ps distinct x h ∙ rw below refl in
        let above =
          sum_to-same depth
            (λ j. count_of (up parent (suc j) x) (roots classify looks_dev rounds ps))
            (λ j. count_of (up parent j y) (roots classify looks_dev rounds ps))
            (λ j.
              ap (λ o. count_of o (roots classify looks_dev rounds ps))
                (up-from j x (some y) below)) in
        let rest =
          roots-sum depth y
            (subst (Found shown) below (parent-Shown classify looks_dev rounds ps distinct x))
            (sym (up-from depth x (some y) below) ∙ e) in
        omega (arith, here, above, rest)
  ]

  build-absent :
      (x depth : ℕ) (pids : List ℕ)
      → shown x ≡ false
      → has_category classify looks_dev rounds ps is_browser x ≡ false
      → All (λ a. shown a ≡ true) pids
      → occurrences x (children_pids (build_items classify looks_dev rounds ps depth pids)) ≡ 0
  unfolding build_items children_pids
  build-absent x zero pids h n all = refl
  build-absent x (suc depth) [] h n all = refl
  build-absent x (suc depth) (p ∷ pids) h n all =
      let below =
        build_items classify looks_dev rounds ps depth (kids classify looks_dev rounds ps p) in
      let rest = build_items classify looks_dev rounds ps (suc depth) pids in
      let rollup = rollup_of classify looks_dev rounds ps p in
      let appended =
        ap (occurrences x) (children_pids-append below rollup)
        ∙ occurrences-append x (children_pids below) (children_pids rollup) in
      let here =
        built-count classify looks_dev rounds ps distinct x p (class_of classify ps p)
          (append_children below rollup) rest
          (shown-is_some classify looks_dev rounds ps distinct p all.0) in
      omega (
        arith,
        here,
        appended,
        rollup_of-absent classify looks_dev rounds ps distinct x p n,
        absent-count x (p ∷ []) shown h (all.0, tt),
        build-absent x depth (kids classify looks_dev rounds ps p) h n (kids-Shown p),
        build-absent x (suc depth) pids h n all.1,
      )

  -- Of the processes that are no browsers the result shows exactly those that `is_item` takes, each in
  -- one item and once, if no two processes have the same pid and the chain of items above the
  -- process ends within `depth`.
  pub group-once :
      (depth x : ℕ)
      → has_category classify looks_dev rounds ps is_browser x ≡ false
      → up parent depth x ≡ none
      → occurrences x (children_pids (group classify looks_dev rounds ps depth))
        ≡ (if shown x then 1 else 0)
  unfolding group
  group-once depth x n top =
      let start = roots classify looks_dev rounds ps in
      collapse_all-pids x (build_items classify looks_dev rounds ps depth start)
      ∙ elim (Bool-cases (shown x)) [
        | inl h ↦ rw h (build-count x depth start h n roots-Shown ∙ roots-sum depth x h top)
        | inr h ↦ rw h (build-absent x depth start h n roots-Shown)
      ]
