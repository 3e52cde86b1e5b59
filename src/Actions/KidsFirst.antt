-- ===== src/Actions/KidsFirst.antt =====
-- `postorder` of src/actions/process.rs puts children before their parents.
use mathlib.Core.Option
use wyd.Common.{
  ℕ, zero, suc, ◌≤◌, ◌<◌, ◌≡◌, refl, ap, ◌∙◌, sym, subst, ◌⊎◌, inl, inr, Bool, true, false, ◌&&◌,
  ◌||◌, Option, none, some, Bool-cases, List, [], ◌∷◌, ◌++◌, ◌==◌, ==_iff, All, OnSome, All-map,
  All-map₂, retain-All, retain-passes, any, any-append, any-All, length, arith,
}
use wyd.Runtime.{ProcessInfo}
use wyd.Actions.{has, kids_of, Visit, push, walk_all, walk, postorder}
use wyd.Actions.Walk.{
  unseen, unseen-lt, unseen-le_length, Walked, Walks, walk_all-Walked, walk-Walks, Walked-unseen,
}
use wyd.Actions.Order.{All-of_map, kids_of-inside}

some-out : (u v : Visit) → some u ≡ some v → u.out ≡ v.out
some-out u v e = cc

module _ (kids : ℕ → List ℕ) where
  -- The kids of each pid stand before it, or are done before.
  abbrev pub KidsFirst : List ℕ → List ℕ → Type 0
  KidsFirst done [] = Unit
  KidsFirst done (p ∷ ps) = All (λ k. has done k ≡ true) (kids p) × KidsFirst (p ∷ done) ps

  KidsFirst-append :
      (done ps : List ℕ) (pid : ℕ)
      → KidsFirst done ps
      → All (λ k. (has done k || has ps k) ≡ true) (kids pid)
      → KidsFirst done (ps ++ pid ∷ [])
  unfolding any
  KidsFirst-append done [] pid h k = (All-map (λ q e. ground (arith, e)) (kids pid) k, tt)
  KidsFirst-append done (p ∷ ps) pid h k = (
    h.0,
    KidsFirst-append (p ∷ done) ps pid h.1 (All-map (λ q e. ground (arith, e)) (kids pid) k),
  )

  module _ (seeds : List ℕ) (depth : ℕ → ℕ)
      (inside : (pid : ℕ) → All (λ p. has seeds p ≡ true) (kids pid))
      (deeper : (pid : ℕ) → All (λ k. depth pid < depth k) (kids pid)) where
    -- Of the pids seen, those that are not out yet are less deep than `d`.
    abbrev Ready : ℕ → Visit → Type 0
    Ready d v = (q : ℕ) → has v.seen q ≡ true → (has v.out q ≡ true) ⊎ (depth q < d)

    Ready-Walked : (d : ℕ) (v v' : Visit) → Walked seeds v v' → Ready d v → Ready d v'
    Ready-Walked d v v' w ready q h = elim (Bool-cases (has w.new q)) [
      | inl k ↦ inl (ap (λ xs. has xs q) w.out ∙ any-append (◌==◌ q) v.out w.new ∙ ground arith)
      | inr k ↦
          let before : has v.seen q ≡ true = ground (arith, w.seen q) in
          elim (ready q before) [
            | inl o ↦
                inl (ap (λ xs. has xs q) w.out ∙ any-append (◌==◌ q) v.out w.new ∙ ground arith)
            | inr l ↦ inr l
          ]
    ]

    abbrev Keeps : (ℕ → Visit → Option Visit) → ℕ → Type 0
    Keeps visit n =
        (pid : ℕ) (v v' : Visit)
        → has seeds pid ≡ true
        → unseen seeds v.seen < n
        → visit pid v ≡ some v'
        → Ready (depth pid) v
        → KidsFirst [] v.out
        → KidsFirst [] v'.out

    walk_all-KidsFirst :
        (visit : ℕ → Visit → Option Visit) (n d : ℕ)
        → Walks seeds visit n
        → Keeps visit n
        → (pids : List ℕ) (v v' : Visit) → All (λ p. has seeds p ≡ true) pids
        → All (λ p. d ≤ depth p) pids
        → unseen seeds v.seen < n
        → walk_all visit pids v ≡ some v'
        → Ready d v
        → KidsFirst [] v.out
        → KidsFirst [] v'.out
    unfolding walk_all
    walk_all-KidsFirst visit n d walks keeps [] v v' at deep less e ready h =
        subst (KidsFirst []) (some-out v v' e) h
    walk_all-KidsFirst visit n d walks keeps (p ∷ pids) v v' at deep less e ready h =
        let (v₁, e₁, w₁, _) = walks p v at.0 less in
        let rest : walk_all visit (p ∷ pids) v ≡ walk_all visit pids v₁ = rw (e₁, walk_all) refl in
        walk_all-KidsFirst visit n d walks keeps pids v₁ v' at.1 deep.1
          (omega (arith, Walked-unseen seeds v v₁ w₁)) (sym rest ∙ e) (Ready-Walked d v v₁ w₁ ready)
          (keeps p v v₁ at.0 less e₁
            (λ q k. elim (ready q k) [ inl o ↦ inl o | inr l ↦ inr (omega (arith, l, deep.0)) ]) h)

    walk-Keeps : (n : ℕ) → Keeps (walk kids n) n
    unfolding walk any
    walk-Keeps zero pid v v' at less e ready h = absurd (omega arith)
    walk-Keeps (suc n) pid v v' at less e ready h = elim (Bool-cases (has v.seen pid)) [
      | inl old ↦
          let same : walk kids (suc n) pid v ≡ some v = rw (old, walk) refl in
          subst (KidsFirst []) (some-out v v' (sym same ∙ e)) h
      | inr new ↦
          let entered : Visit = record v { seen = pid ∷ v.seen } in
          let fewer : unseen seeds entered.seen < n =
            omega (arith, unseen-lt seeds v.seen pid at new) in
          let walks = walk-Walks seeds kids inside n in
          let (v₁, e₁, w₁, all_seen) =
            walk_all-Walked seeds (walk kids n) n walks (kids pid) entered (inside pid) fewer in
          let same : walk kids (suc n) pid v ≡ some (record v₁ { out = v₁.out ++ pid ∷ [] }) =
            rw (new, walk) (rw (e₁, push) refl) in
          let ready' : Ready (suc (depth pid)) entered = λ q k. elim (Bool-cases (q == pid)) [
            | inl e ↦
                let d : depth q ≡ depth pid = ap depth ((==_iff q pid).0 e) in
                inr (omega (arith, d))
            | inr e ↦ elim (ready q (ground (arith, k))) [
              | inl o ↦ inl o
              | inr l ↦ inr (omega (arith, l))
            ]
          ] in
          let first =
            walk_all-KidsFirst (walk kids n) n (suc (depth pid)) walks (walk-Keeps n) (kids pid)
              entered v₁ (inside pid) (deeper pid) fewer e₁ ready' h in
          let out : All (λ k. has v₁.out k ≡ true) (kids pid) =
            All-map₂
              (λ k seen deep. elim (Ready-Walked (suc (depth pid)) entered v₁ w₁ ready' k seen) [
                | inl o ↦ o
                | inr l ↦ absurd (omega (arith, l, deep))
              ])
              (kids pid) all_seen (deeper pid) in
          subst (KidsFirst []) (some-out _ v' (sym same ∙ e))
            (KidsFirst-append [] v₁.out pid first out)
    ]

-- Each process is deeper than its parent, where it has one.
abbrev pub DeeperThanParent : (ℕ → ℕ) → ProcessInfo → Type 0
DeeperThanParent depth p = OnSome (λ ppid. depth ppid < depth p.pid) p.parent_pid

deeper-parent :
    (depth : ℕ → ℕ) (pid child : ℕ) (parent : Option ℕ) (a b : Bool)
    → OnSome (λ ppid. depth ppid < depth child) parent
    → ((elim parent [ none ↦ false | some ppid ↦ ppid == pid ] && a) && b) ≡ true
    → depth pid < depth child
deeper-parent depth pid child none a b h k = absurd (cc)
deeper-parent depth pid child (some ppid) a b h k =
    let same : (ppid == pid) ≡ true = ground arith in
    subst (λ q. depth q < depth child) ((==_iff ppid pid).0 same) h

kids_of-deeper :
    (depth : ℕ → ℕ) (seeds : List ℕ) (processes : List ProcessInfo) (pid : ℕ)
    → All (DeeperThanParent depth) processes
    → All (λ k. depth pid < depth k) (kids_of seeds processes pid)
unfolding kids_of
kids_of-deeper depth seeds processes pid h =
    All-of_map (λ k. depth pid < depth k) (λ (p : ProcessInfo). p.pid) _
      (All-map₂ (λ p. deeper-parent depth pid p.pid p.parent_pid (has seeds p.pid) (has seeds pid))
        _ (retain-All (DeeperThanParent depth) _ processes h) (retain-passes _ processes))

-- In a snapshot whose parents make no circle, the result of `postorder` has every process after the
-- processes it is the parent of, if they are seeds as well: the deepest are signalled first.
pub postorder-KidsFirst :
    (depth : ℕ → ℕ) (seeds : List ℕ) (processes : List ProcessInfo)
    → All (DeeperThanParent depth) processes
    → (out : List ℕ) × (postorder seeds processes ≡ some out)
      × KidsFirst (kids_of seeds processes) [] out
unfolding postorder any
postorder-KidsFirst depth seeds processes acyclic =
    let kids = kids_of seeds processes in
    let inside = kids_of-inside seeds processes in
    let deeper = λ (pid : ℕ). kids_of-deeper depth seeds processes pid acyclic in
    let n = suc (length seeds) in
    let start : Visit = record { seen = []; out = [] } in
    let walks = walk-Walks seeds kids inside n in
    let less : unseen seeds [] < n = omega (arith, unseen-le_length seeds []) in
    let (v, e, w, _) =
      walk_all-Walked seeds (walk kids n) n walks seeds start (any-All seeds) less in
    (
      v.out,
      ap (Option.map (λ (v : Visit). v.out)) e,
      walk_all-KidsFirst kids seeds depth inside deeper (walk kids n) n 0 walks
          (walk-Keeps kids seeds depth inside deeper n) seeds start v (any-All seeds)
          (All-map (λ p k. omega arith) seeds (any-All seeds)) less e (λ q k. absurd (cc)) tt,
    )
