-- ===== src/Grouping/Collapse.antt =====
-- `collapse_same` of src/classify/group.rs loses no process and leaves nothing to fold.
use mathlib.Core.Path.{ap₂}
use mathlib.Core.List.{append_assoc}
use wyd.Common.{
  inl, inr, ℕ, ◌+◌, ◌≡◌, refl, ap, ◌∙◌, sym, true, false, ◌&&◌, and-eq_true, Bool-cases, List, [],
  ◌∷◌, ◌++◌, ◌==◌, ==_iff, if◌then◌else◌, total, total-append, arith,
}
use wyd.Run.{Bytes}
use wyd.Runtime.{Head, RuntimeItem, item, Children, no_more, child}
use wyd.Store.{bytes_eq}
use wyd.Actions.{item_pids, children_pids}
use wyd.Grouping.{
  category_number, same_kind, append_children, fold_same, collapse_same, collapse_all,
}

-- How often a pid stands in a list.
abbrev pub occurrences : ℕ → List ℕ → ℕ
occurrences a pids = total (λ p. if p == a then 1 else 0) pids

pub children_pids-append :
    (is js : Children)
    → children_pids (append_children is js) ≡ children_pids is ++ children_pids js
unfolding children_pids append_children
children_pids-append no_more js = refl
children_pids-append (child i is) js =
    ap (◌++◌ (item_pids i)) (children_pids-append is js)
    ∙ sym (append_assoc (item_pids i) (children_pids is) (children_pids js))

pub occurrences-append :
    (a : ℕ) (xs ys : List ℕ) → occurrences a (xs ++ ys) ≡ occurrences a xs + occurrences a ys
occurrences-append a xs ys = total-append (λ p. if p == a then 1 else 0) xs ys

fold_same-pids :
    (a : ℕ) (h : Head) (cs : Children)
    → occurrences a (fold_same h cs).process_ids
        + (occurrences a (children_pids (fold_same h cs).kept)
            + occurrences a (children_pids (fold_same h cs).absorbed))
      ≡ occurrences a (children_pids cs)
unfolding fold_same children_pids
fold_same-pids a h no_more = refl
fold_same-pids a h (child (item g gs) rest) =
    let f = fold_same h rest in
    let ih = fold_same-pids a h rest in
    let whole = occurrences-append a (g.process_ids ++ children_pids gs) (children_pids rest) in
    let own = occurrences-append a g.process_ids (children_pids gs) in
    elim (Bool-cases (same_kind g h)) [
      | inl e ↦
          let ids = occurrences-append a g.process_ids f.process_ids in
          let left =
            ap (occurrences a) (children_pids-append gs f.absorbed)
            ∙ occurrences-append a (children_pids gs) (children_pids f.absorbed) in
          rw e (omega (arith, ih, whole, own, ids, left))
      | inr e ↦
          let left =
            occurrences-append a (g.process_ids ++ children_pids gs) (children_pids f.kept) in
          rw e (omega (arith, ih, whole, own, left))
    ]

mutual
  unfolding collapse_same item_pids

  collapse_same-pids :
      (a : ℕ) (i : RuntimeItem)
      → occurrences a (item_pids (collapse_same i)) ≡ occurrences a (item_pids i)
  collapse_same-pids a (item h children) =
      let cs = collapse_all children in
      let f = fold_same h cs in
      let outer =
        occurrences-append a (h.process_ids ++ f.process_ids)
          (children_pids (append_children f.kept f.absorbed)) in
      let own = occurrences-append a h.process_ids f.process_ids in
      let left =
        ap (occurrences a) (children_pids-append f.kept f.absorbed)
        ∙ occurrences-append a (children_pids f.kept) (children_pids f.absorbed) in
      let before = occurrences-append a h.process_ids (children_pids children) in
      omega (arith, outer, own, left, before, fold_same-pids a h cs, collapse_all-pids a children)

  pub collapse_all-pids :
      (a : ℕ) (is : Children)
      → occurrences a (children_pids (collapse_all is)) ≡ occurrences a (children_pids is)
  collapse_all-pids a no_more = refl
  collapse_all-pids a (child i rest) =
      occurrences-append a (item_pids (collapse_same i)) (children_pids (collapse_all rest))
      ∙ ap₂ ◌+◌ (collapse_same-pids a i) (collapse_all-pids a rest)
      ∙ sym (occurrences-append a (item_pids i) (children_pids rest))

-- No child is of the kind of an item.
abbrev pub Differ : Head → Children → Type 0
Differ h no_more = Unit
Differ h (child (item g gs) rest) = (same_kind g h ≡ false) × Differ h rest

-- In an item and all below it, no child is of the kind of its parent.
abbrev mutual
  pub Collapsed : RuntimeItem → Type 0
  Collapsed (item h children) = Differ h children × AllCollapsed children

  pub AllCollapsed : Children → Type 0
  AllCollapsed no_more = Unit
  AllCollapsed (child i rest) = Collapsed i × AllCollapsed rest

pub bytes_eq-eq : (a b : Bytes) → bytes_eq a b ≡ true → a ≡ b
unfolding bytes_eq
bytes_eq-eq [] [] h = refl
bytes_eq-eq [] (b ∷ bs) h = absurd (cc)
bytes_eq-eq (a ∷ as') [] h = absurd (cc)
bytes_eq-eq (a ∷ as') (b ∷ bs) h =
    let (x, xs) = and-eq_true (a == b) (bytes_eq as' bs) h in
    ap₂ ◌∷◌ ((==_iff a b).0 x) (bytes_eq-eq as' bs xs)

-- What differs from an item's kind differs from every item of that kind.
same_kind-other :
    (x g h : Head) → same_kind g h ≡ true → same_kind x g ≡ false → same_kind x h ≡ false
same_kind-other x g h e d =
    let (c, n) = and-eq_true (category_number g.category == category_number h.category) _ e in
    ap₂ (λ k name. (category_number x.category == k) && bytes_eq x.display_name name)
      (sym ((==_iff _ _).0 c)) (sym (bytes_eq-eq g.display_name h.display_name n))
    ∙ d

Differ-other : (g h : Head) (cs : Children) → same_kind g h ≡ true → Differ g cs → Differ h cs
Differ-other g h no_more e d = tt
Differ-other g h (child (item x xs) rest) e d =
    (same_kind-other x g h e d.0, Differ-other g h rest e d.1)

append_children-Collapsed :
    (h : Head) (is js : Children)
    → Differ h is × AllCollapsed is
    → Differ h js × AllCollapsed js
    → Differ h (append_children is js) × AllCollapsed (append_children is js)
unfolding append_children
append_children-Collapsed h no_more js a b = b
append_children-Collapsed h (child (item g gs) is) js a b =
    let rest = append_children-Collapsed h is js (a.0.1, a.1.1) b in
    ((a.0.0, rest.0), (a.1.0, rest.1))

fold_same-Collapsed :
    (h : Head) (cs : Children)
    → AllCollapsed cs
    → (Differ h (fold_same h cs).kept × AllCollapsed (fold_same h cs).kept)
      × (Differ h (fold_same h cs).absorbed × AllCollapsed (fold_same h cs).absorbed)
unfolding fold_same
fold_same-Collapsed h no_more ok = ((tt, tt), (tt, tt))
fold_same-Collapsed h (child (item g gs) rest) ok =
    let ih = fold_same-Collapsed h rest ok.1 in
    elim (Bool-cases (same_kind g h)) [
      | inl e ↦ rw e (
        ih.0,
        append_children-Collapsed h gs (fold_same h rest).absorbed
            (Differ-other g h gs e ok.0.0, ok.0.1) ih.1,
      )
      | inr e ↦ rw e (((e, ih.0.0), (ok.0, ih.0.1)), ih.1)
    ]

mutual
  unfolding collapse_same

  collapse_same-Collapsed : (i : RuntimeItem) → Collapsed (collapse_same i)
  collapse_same-Collapsed (item h children) =
      let (kept, absorbed) =
        fold_same-Collapsed h (collapse_all children) (collapse_all-Collapsed children) in
      append_children-Collapsed h _ _ kept absorbed

  collapse_all-Collapsed : (is : Children) → AllCollapsed (collapse_all is)
  collapse_all-Collapsed no_more = tt
  collapse_all-Collapsed (child i rest) = (collapse_same-Collapsed i, collapse_all-Collapsed rest)

-- Folding loses and doubles no process: each pid stands as often in the folded item, with the items
-- below it, as before. And nothing is left to fold: nowhere in the result has a child the category
-- and the name of its parent, not even one that came up from a child that was folded.
pub collapse_same-folds :
    (i : RuntimeItem)
    → ((a : ℕ) → occurrences a (item_pids (collapse_same i)) ≡ occurrences a (item_pids i))
      × Collapsed (collapse_same i)
collapse_same-folds i = (λ a. collapse_same-pids a i, collapse_same-Collapsed i)
