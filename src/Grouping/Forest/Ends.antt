-- ===== src/Grouping/Forest/Ends.antt =====
-- The loops of src/classify/group.rs below a process end where the parents make no cycle.
use wyd.Common.{
  ℕ, zero, suc, ◌+◌, ◌<◌, ◌≤◌, ◌≡◌, refl, ap, ◌∙◌, inl, inr, Bool, true, false, Option, none, some,
  List, [], ◌∷◌, ◌++◌, ◌==◌, ==_iff, ◌&&◌, and-eq_true, subst, map, retain, is_some, total,
  Bool-cases, All, All-map, arith,
}
use wyd.Runtime.{ProcessInfo}
use wyd.Actions.{is_parent}
use wyd.Grouping.Chains.{sort_by_size-All}
use wyd.Grouping.Forest.{memory_of, children_of, push_all, search, collect}

total-push_all :
    (f : ℕ → ℕ) (xs stack : List ℕ) → total f (push_all xs stack) ≡ total f xs + total f stack
unfolding push_all
total-push_all f [] stack = omega arith
total-push_all f (x ∷ xs) stack = omega (arith, total-push_all f xs (x ∷ stack))

total-same : (f g : ℕ → ℕ) (xs : List ℕ) → All (λ x. f x ≡ g x) xs → total f xs ≡ total g xs
total-same f g [] h = refl
total-same f g (x ∷ xs) h = omega (arith, h.0, total-same f g xs h.1)

-- No process is below itself: what is below one has a lower rank.
module _ (below : ℕ → List ℕ) (rank : ℕ → ℕ)
    (falls : (p : ℕ) → All (λ c. rank c < rank p) (below p)) where
  -- How many processes are so many levels below one, itself included.
  unfoldable pub size_to : ℕ → ℕ → ℕ
  size_to zero p = 1
  size_to (suc n) p = 1 + total (size_to n) (below p)

  no_children : (p : ℕ) (cs : List ℕ) → All (λ c. rank c < rank p) cs → rank p ≡ 0 → cs ≡ []
  no_children p [] h e = refl
  no_children p (c ∷ cs) h e = absurd (omega (arith, h.0))

  -- Below a process of some rank there are no more levels than that.
  size_to-stable : (n m p : ℕ) → rank p ≤ n → rank p ≤ m → size_to n p ≡ size_to m p
  unfolding size_to
  size_to-stable zero zero p h k = refl
  size_to-stable zero (suc m) p h k =
      let none = no_children p (below p) (falls p) (omega arith) in rw none refl
  size_to-stable (suc n) zero p h k =
      let none = no_children p (below p) (falls p) (omega arith) in rw none refl
  size_to-stable (suc n) (suc m) p h k =
      ap (λ t. 1 + t)
        (total-same (size_to n) (size_to m) (below p) (
          All-map (λ c less. size_to-stable n m c (omega arith) (omega arith)) (below p) (falls p)))

  unfoldable pub size : ℕ → ℕ
  size p = size_to (rank p) p

  size-below : (p : ℕ) → size p ≡ 1 + total size (below p)
  unfolding size size_to
  size-below p =
      size_to-stable (rank p) (suc (rank p)) p (omega arith) (omega arith)
      ∙ ap (λ t. 1 + t)
          (total-same (size_to (rank p)) size (below p) (
            All-map (λ c less. size_to-stable (rank p) (rank c) c (omega arith) (omega arith))
              (below p) (falls p)))

  loops-end :
      (test : ℕ → Bool) (rounds : ℕ) (stack out : List ℕ)
      → total size stack < rounds
      → (is_some (search below test rounds stack) ≡ true)
        × (is_some (collect below test rounds stack out) ≡ true)
  unfolding search collect
  loops-end test zero stack out h = absurd (omega arith)
  loops-end test (suc rounds) [] out h = (refl, refl)
  loops-end test (suc rounds) (p ∷ stack) out h =
      let fewer : total size (push_all (below p) stack) < rounds =
        omega (arith, h, size-below p, total-push_all size (below p) stack) in
      elim (Bool-cases (test p)) [
        | inl e ↦
            rw e (refl, (loops-end test rounds (push_all (below p) stack) (out ++ p ∷ []) fewer).1)
        | inr e ↦ rw e (loops-end test rounds (push_all (below p) stack) out fewer)
      ]

-- A process has a lower rank than its parent.
abbrev pub Falls : (ℕ → ℕ) → ProcessInfo → Type 0
Falls rank p = elim p.parent_pid [ none ↦ Unit | some q ↦ rank p.pid < rank q ]

is_parent-Falls :
    (rank : ℕ → ℕ) (q : ℕ) (p : ProcessInfo)
    → Falls rank p
    → is_parent q p ≡ true
    → rank p.pid < rank q
is_parent-Falls rank q p falls child = go p.parent_pid falls child
  where
    go :
        (o : Option ℕ)
        → elim o as (λ _. Type 0) [ none ↦ Unit | some r ↦ rank p.pid < rank r ]
        → elim o as (λ _. Bool) [ none ↦ false | some r ↦ r == q ] ≡ true
        → rank p.pid < rank q
    go none h e = absurd (cc)
    go (some r) h e = subst (λ i. rank p.pid < rank i) ((==_iff r q).0 e) h

children-Falls :
    (rank : ℕ → ℕ) (q : ℕ) (t : ProcessInfo → Bool) (ps : List ProcessInfo)
    → All (Falls rank) ps
    → All
        (λ c. rank c < rank q)
        (map (λ p. p.pid) (retain (λ (p : ProcessInfo). is_parent q p && t p) ps))
unfolding retain
children-Falls rank q t [] h = tt
children-Falls rank q t (p ∷ ps) h = elim (Bool-cases (is_parent q p && t p)) [
  | inl e ↦ rw e (
    is_parent-Falls rank q p h.0 (and-eq_true (is_parent q p) (t p) e).0,
    children-Falls rank q t ps h.1,
  )
  | inr e ↦ rw e (children-Falls rank q t ps h.1)
]

pub children_of-Falls :
    (rank : ℕ → ℕ) (ps : List ProcessInfo)
    → All (Falls rank) ps
    → (q : ℕ) → All (λ c. rank c < rank q) (children_of ps q)
unfolding children_of
children_of-Falls rank ps h q =
    sort_by_size-All (λ c. rank c < rank q) (memory_of ps) _ (children-Falls rank q _ ps h)

-- The processes below one, with those that a loop has still to take from its stack.
unfoldable pub descents : (rank : ℕ → ℕ) (ps : List ProcessInfo) → All (Falls rank) ps → ℕ → ℕ
descents rank ps h pid =
    total (size (children_of ps) rank (children_of-Falls rank ps h))
      (push_all (children_of ps pid) [])

-- The loops below a process end by themselves where the parents make no cycle, that is, where numbers
-- can be given to the processes that fall from parent to child: with more rounds than there are
-- processes below it, the search for a classified one answers and the collection of browsers ends.
pub descents-end :
    (rank : ℕ → ℕ) (ps : List ProcessInfo) (test : ℕ → Bool) (pid rounds : ℕ)
    (h : All (Falls rank) ps)
    → descents rank ps h pid < rounds
    → let stack = push_all (children_of ps pid) [] in
      (is_some (search (children_of ps) test rounds stack) ≡ true)
      × (is_some (collect (children_of ps) test rounds stack []) ≡ true)
unfolding descents
descents-end rank ps test pid rounds h more =
    loops-end (children_of ps) rank (children_of-Falls rank ps h) test rounds _ [] more
