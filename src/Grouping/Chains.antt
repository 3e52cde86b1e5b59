-- ===== src/Grouping/Chains.antt =====
-- Chains of ancestors, and counts of pids in the lists that `group` of src/classify/group.rs sorts and
-- filters.
use wyd.Common.{
  ℕ, zero, suc, ◌+◌, ◌≡◌, refl, ap, ◌∙◌, sym, subst, inl, inr, Bool, true, false, Option, none,
  some, List, [], ◌∷◌, map, leb, ◌==◌, ==_iff, if◌then◌else◌, retain, Bool-cases, All, arith,
}
use wyd.Runtime.{ProcessInfo}
use wyd.Grouping.Forest.{insert_by_size, sort_by_size}
use wyd.Grouping.Build.{insert_pid, sort_pids}
use wyd.Grouping.Collapse.{occurrences}

-- `f 0 + … + f (n - 1)`.
abbrev pub sum_to : ℕ → (ℕ → ℕ) → ℕ
sum_to zero f = 0
sum_to (suc n) f = f 0 + sum_to n (λ k. f (suc k))

pub sum_to-add :
    (n : ℕ) (f g h : ℕ → ℕ) → ((k : ℕ) → h k ≡ f k + g k) → sum_to n h ≡ sum_to n f + sum_to n g
sum_to-add zero f g h e = refl
sum_to-add (suc n) f g h e =
    omega
      (arith, e 0, sum_to-add n (λ k. f (suc k)) (λ k. g (suc k)) (λ k. h (suc k)) (λ k. e (suc k)))

pub sum_to-same : (n : ℕ) (f g : ℕ → ℕ) → ((k : ℕ) → f k ≡ g k) → sum_to n f ≡ sum_to n g
sum_to-same zero f g e = refl
sum_to-same (suc n) f g e =
    omega (arith, e 0, sum_to-same n (λ k. f (suc k)) (λ k. g (suc k)) (λ k. e (suc k)))

pub sum_to-zero : (n : ℕ) (f : ℕ → ℕ) → ((k : ℕ) → f k ≡ 0) → sum_to n f ≡ 0
sum_to-zero zero f e = refl
sum_to-zero (suc n) f e = omega (arith, e 0, sum_to-zero n (λ k. f (suc k)) (λ k. e (suc k)))

insert_by_size-count :
    (key : ℕ → ℕ) (x a : ℕ) (ys : List ℕ)
    → occurrences a (insert_by_size key x ys) ≡ occurrences a (x ∷ ys)
unfolding insert_by_size
insert_by_size-count key x a [] = refl
insert_by_size-count key x a (y ∷ ys) = elim (Bool-cases (leb (key y) (key x))) [
  | inl e ↦ rw e refl
  | inr e ↦ rw e (omega (arith, insert_by_size-count key x a ys))
]

pub sort_by_size-count :
    (key : ℕ → ℕ) (a : ℕ) (xs : List ℕ) → occurrences a (sort_by_size key xs) ≡ occurrences a xs
unfolding sort_by_size
sort_by_size-count key a [] = refl
sort_by_size-count key a (x ∷ xs) =
    insert_by_size-count key x a (sort_by_size key xs) ∙ omega (arith, sort_by_size-count key a xs)

insert_by_size-All :
    (P : ℕ → Type 0) (key : ℕ → ℕ) (x : ℕ) (ys : List ℕ)
    → P x
    → All P ys
    → All P (insert_by_size key x ys)
unfolding insert_by_size
insert_by_size-All P key x [] h k = (h, k)
insert_by_size-All P key x (y ∷ ys) h k = elim (Bool-cases (leb (key y) (key x))) [
  | inl e ↦ rw e (h, k)
  | inr e ↦ rw e (k.0, insert_by_size-All P key x ys h k.1)
]

pub sort_by_size-All :
    (P : ℕ → Type 0) (key : ℕ → ℕ) (xs : List ℕ) → All P xs → All P (sort_by_size key xs)
unfolding sort_by_size
sort_by_size-All P key [] h = h
sort_by_size-All P key (x ∷ xs) h =
    insert_by_size-All P key x (sort_by_size key xs) h.0 (sort_by_size-All P key xs h.1)

insert_pid-All : (P : ℕ → Type 0) (x : ℕ) (ys : List ℕ) → P x → All P ys → All P (insert_pid x ys)
unfolding insert_pid
insert_pid-All P x [] h k = (h, k)
insert_pid-All P x (y ∷ ys) h k = elim (Bool-cases (leb x y)) [
  | inl e ↦ rw e (h, k)
  | inr e ↦ rw e (k.0, insert_pid-All P x ys h k.1)
]

pub sort_pids-All : (P : ℕ → Type 0) (xs : List ℕ) → All P xs → All P (sort_pids xs)
unfolding sort_pids
sort_pids-All P [] h = h
sort_pids-All P (x ∷ xs) h = insert_pid-All P x (sort_pids xs) h.0 (sort_pids-All P xs h.1)

abbrev pub pids_of : List ProcessInfo → List ℕ
pids_of ps = map (λ p. p.pid) ps

zero_add : (n : ℕ) → 0 + n ≡ n
zero_add n = omega arith

-- What is left of a pid by a filter on pids.
pub filter-count :
    (f : ℕ → Bool) (a : ℕ) (ps : List ProcessInfo)
    → occurrences a (pids_of (retain (λ (p : ProcessInfo). f p.pid) ps))
      ≡ (if f a then occurrences a (pids_of ps) else 0)
unfolding retain
filter-count f a [] = ground arith
filter-count f a (p ∷ ps) = elim (Bool-cases (p.pid == a)) [
  | inl e ↦
      let same : f p.pid ≡ f a = ap f ((==_iff p.pid a).0 e) in
      elim (Bool-cases (f a)) [
        | inl t ↦
            let ih : occurrences a (pids_of (retain (λ (q : ProcessInfo). f q.pid) ps))
                ≡ occurrences a (pids_of ps) =
              filter-count f a ps ∙ rw t refl in
            rw (same ∙ t, t) (omega (arith, ih))
        | inr t ↦ rw (same ∙ t, t) (filter-count f a ps ∙ rw t refl)
      ]
  | inr e ↦ elim (Bool-cases (f p.pid)) [
    | inl t ↦
        rw (t, e)
          (zero_add _ ∙ filter-count f a ps ∙ ap (λ n. if f a then n else 0) (sym (zero_add _)))
    | inr t ↦ rw (t, e) (filter-count f a ps ∙ ap (λ n. if f a then n else 0) (sym (zero_add _)))
  ]
]

pub filter-All :
    (f : ℕ → Bool) (ps : List ProcessInfo)
    → All (λ a. f a ≡ true) (pids_of (retain (λ (p : ProcessInfo). f p.pid) ps))
unfolding retain
filter-All f [] = tt
filter-All f (p ∷ ps) = elim (Bool-cases (f p.pid)) [
  | inl e ↦ rw e (e, filter-All f ps)
  | inr e ↦ rw e (filter-All f ps)
]

pub absent-count :
    (a : ℕ) (xs : List ℕ) (f : ℕ → Bool)
    → f a ≡ false
    → All (λ x. f x ≡ true) xs
    → occurrences a xs ≡ 0
absent-count a [] f n h = refl
absent-count a (x ∷ xs) f n h = elim (Bool-cases (x == a)) [
  | inl e ↦ absurd (let same : f a ≡ true = subst (λ i. f i ≡ true) ((==_iff x a).0 e) h.0 in cc)
  | inr e ↦ rw e (zero_add _ ∙ absent-count a xs f n h.1)
]

module _ (parent : ℕ → Option ℕ) where
  -- The ancestor so many steps up.
  abbrev pub up : ℕ → ℕ → Option ℕ
  up zero x = some x
  up (suc k) x = elim (parent x) [ none ↦ none | some y ↦ up k y ]

  abbrev pub then_up : Option ℕ → Option ℕ
  then_up none = none
  then_up (some y) = parent y

  then_up-go :
      (k : ℕ) (o : Option ℕ)
      → ((y : ℕ) → up (suc k) y ≡ then_up (up k y))
      → elim o as (λ _. Option ℕ) [ none ↦ none | some y ↦ up (suc k) y ]
        ≡ then_up (elim o [ none ↦ none | some y ↦ up k y ])
  then_up-go k none h = refl
  then_up-go k (some y) h = h y

  same_option : (o : Option ℕ) → elim o as (λ _. Option ℕ) [ none ↦ none | some y ↦ some y ] ≡ o
  same_option none = refl
  same_option (some y) = refl

  pub up-suc : (k x : ℕ) → up (suc k) x ≡ then_up (up k x)
  up-suc zero x = same_option (parent x)
  up-suc (suc k) x = then_up-go k (parent x) (up-suc k)
