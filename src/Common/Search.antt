-- ===== src/Common/Search.antt =====
-- What the searches of `Lists` find: the first entry that passes, and the first with the least key.
use Prim.Native.Nat.{ℕ, zero, suc, ◌+◌, ◌≤◌, ◌<◌}
use mathlib.Core.Path.{◌≡◌, refl, ap, ◌∙◌, subst}
use mathlib.Core.Logic.{◌⊎◌, inl, inr}
use mathlib.Core.Bool.{Bool, true, false, not}
use mathlib.Core.List.{List, [], ◌∷◌, ◌++◌}
use mathlib.Core.Option.{Option, none, some}
use native.Mathlib.Omega.{arith}
use wyd.Common.Tests.{leb, Bool-cases}
use wyd.Common.Sums.{total}
use wyd.Common.Lists.{
  length, get_elem?, take, All, retain, find?, enumerate_from, min_by_key, remove_at,
}

module _ {ℓ} {A : Type ℓ} where
  pub All-map {κ ν} :
      {P : A → Type κ} {Q : A → Type ν} (f : (a : A) → P a → Q a) (xs : List A)
      → All P xs
      → All Q xs
  All-map f [] h = tt
  All-map f (x ∷ xs) h = (f x h.0, All-map f xs h.1)

  pub All-map₂ {κ ν ξ} :
      {P : A → Type κ} {Q : A → Type ν} {R : A → Type ξ} (f : (a : A) → P a → Q a → R a)
      (xs : List A)
      → All P xs
      → All Q xs
      → All R xs
  All-map₂ f [] h k = tt
  All-map₂ f (x ∷ xs) h k = (f x h.0 k.0, All-map₂ f xs h.1 k.1)

  pub All-take {κ} : (P : A → Type κ) (i : ℕ) (xs : List A) → All P xs → All P (take i xs)
  All-take P zero xs h = tt
  All-take P (suc i) [] h = tt
  All-take P (suc i) (x ∷ xs) h = (h.0, All-take P i xs h.1)

  pub retain-All {κ} :
      (P : A → Type κ) (p : A → Bool) (xs : List A) → All P xs → All P (retain p xs)
  unfolding retain
  retain-All P p [] h = tt
  retain-All P p (x ∷ xs) h = elim (Bool-cases (p x)) [
    | inl e ↦ rw e (h.0, retain-All P p xs h.1)
    | inr e ↦ rw e (retain-All P p xs h.1)
  ]

  pub All-append {κ} : (P : A → Type κ) (xs ys : List A) → All P xs → All P ys → All P (xs ++ ys)
  All-append P [] ys h k = k
  All-append P (x ∷ xs) ys h k = (h.0, All-append P xs ys h.1 k)

  pub All-append_left {κ} : (P : A → Type κ) (xs ys : List A) → All P (xs ++ ys) → All P xs
  All-append_left P [] ys h = tt
  All-append_left P (x ∷ xs) ys h = (h.0, All-append_left P xs ys h.1)

  pub All-append_right {κ} : (P : A → Type κ) (xs ys : List A) → All P (xs ++ ys) → All P ys
  All-append_right P [] ys h = h
  All-append_right P (x ∷ xs) ys h = All-append_right P xs ys h.1

  pub retain-passes : (p : A → Bool) (xs : List A) → All (λ a. p a ≡ true) (retain p xs)
  unfolding retain
  retain-passes p [] = tt
  retain-passes p (x ∷ xs) = elim (Bool-cases (p x)) [
    | inl e ↦ rw e (e, retain-passes p xs)
    | inr e ↦ rw e (retain-passes p xs)
  ]

  pub All-get_elem? {κ} :
      (P : A → Type κ) (xs : List A) (i : ℕ) (a : A) → All P xs → get_elem? xs i ≡ some a → P a
  All-get_elem? P [] i a h e = absurd (cc)
  All-get_elem? P (x ∷ xs) zero a h e = subst P (cc) h.0
  All-get_elem? P (x ∷ xs) (suc i) a h e = All-get_elem? P xs i a h.1 e

  -- The outcome of a search for the first entry of `xs` that passes, numbered from `k`.
  abbrev pub First : (A → Bool) → ℕ → List A → Option (ℕ × A) → Type ℓ
  First p k xs o =
      ((o ≡ none) × All (λ b. p b ≡ false) xs)
      ⊎ ((i : ℕ) × (a : A) × (o ≡ some (k + i, a))
          × (get_elem? xs i ≡ some a)
          × (p a ≡ true)
          × All (λ b. p b ≡ false) (take i xs))

  pub find?-First :
      (p : A → Bool) (k : ℕ) (xs : List A) → First p k xs (find? (λ e. p e.1) (enumerate_from k xs))
  unfolding find? enumerate_from
  find?-First p k [] = inl (refl, tt)
  find?-First p k (x ∷ xs) = elim (Bool-cases (p x)) [
    | inl e ↦ inr (0, x, rw e (ap (λ n. some (n, x)) (omega arith)), refl, e, tt)
    | inr e ↦ elim (find?-First p (suc k) xs) [
      | inl (o, h) ↦ inl (rw e o, (e, h))
      | inr (i, a, o, at, pa, h) ↦
          inr (suc i, a, rw e (o ∙ ap (λ n. some (n, a)) (omega arith)), at, pa, (e, h))
    ]
  ]

  -- The outcome of a search for the first of the entries of `xs` that pass with the least key.
  abbrev pub Least : (A → Bool) → (A → ℕ) → ℕ → List A → Option (ℕ × A) → Type ℓ
  Least p key k xs o =
      ((o ≡ none) × All (λ b. p b ≡ false) xs)
      ⊎ ((i : ℕ) × (a : A) × (o ≡ some (k + i, a))
          × (get_elem? xs i ≡ some a)
          × (p a ≡ true)
          × All (λ b. p b ≡ true → key a ≤ key b) xs
          × All (λ b. p b ≡ true → key a < key b) (take i xs))

  pub min_by_key-Least :
      (p : A → Bool) (key : A → ℕ) (k : ℕ) (xs : List A)
      → Least p key k xs (min_by_key (λ e. key e.1) (retain (λ e. p e.1) (enumerate_from k xs)))
  unfolding min_by_key enumerate_from retain
  min_by_key-Least p key k [] = inl (refl, tt)
  min_by_key-Least p key k (x ∷ xs) = elim (Bool-cases (p x)) [
    | inr e ↦ elim (min_by_key-Least p key (suc k) xs) [
      | inl (o, h) ↦ inl (rw e o, (e, h))
      | inr (i, a, o, at, pa, h, h') ↦ inr (
        suc i,
        a,
        rw e (o ∙ ap (λ n. some (n, a)) (omega arith)),
        at,
        pa,
        ((λ f. absurd (cc)), h),
        ((λ f. absurd (cc)), h'),
      )
    ]
    | inl e ↦ elim (min_by_key-Least p key (suc k) xs) [
      | inl (o, h) ↦ inr (
        0,
        x,
        rw (e, o, min_by_key) (ap (λ n. some (n, x)) (omega arith)),
        refl,
        e,
        ((λ _. omega arith), All-map (λ b f t. absurd (cc)) xs h),
        tt,
      )
      | inr (i, a, o, at, pa, h, h') ↦ elim (Bool-cases (leb (key x) (key a))) [
        | inl le ↦ inr (
          0,
          x,
          rw (e, o, min_by_key) (rw le (ap (λ n. some (n, x)) (omega arith))),
          refl,
          e,
          ((λ _. omega arith), All-map (λ b f t. ground (arith, f t)) xs h),
          tt,
        )
        | inr gt ↦ inr (
          suc i,
          a,
          rw (e, o, min_by_key) (rw gt (ap (λ n. some (n, a)) (omega arith))),
          at,
          pa,
          ((λ _. ground arith), h),
          ((λ _. ground arith), h'),
        )
      ]
    ]
  ]

  -- `remove_at` takes the entry out and leaves the others in order.
  pub remove_at-split :
      (i : ℕ) (xs : List A) (a : A)
      → get_elem? xs i ≡ some a
      → (back : List A) × (remove_at i xs ≡ some (a, take i xs ++ back))
        × (xs ≡ take i xs ++ a ∷ back)
  unfolding remove_at
  remove_at-split i [] a e = absurd (cc)
  remove_at-split zero (x ∷ xs) a e = (xs, cc, cc)
  remove_at-split (suc i) (x ∷ xs) a e =
      let (back, o, split) = remove_at-split i xs a e in (back, rw (o, remove_at), ap (◌∷◌ x) split)

  pub length-retain_le : (p : A → Bool) (xs : List A) → length (retain p xs) ≤ length xs
  unfolding retain
  length-retain_le p [] = omega arith
  length-retain_le p (x ∷ xs) = ground (arith, length-retain_le p xs)

  pub total-retain_le :
      (f : A → ℕ) (p : A → Bool) (xs : List A) → total f (retain p xs) ≤ total f xs
  unfolding retain
  total-retain_le f p [] = omega arith
  total-retain_le f p (x ∷ xs) = ground (arith, total-retain_le f p xs)

  pub retain-append :
      (p : A → Bool) (xs ys : List A) → retain p (xs ++ ys) ≡ retain p xs ++ retain p ys
  unfolding retain
  retain-append p [] ys = refl
  retain-append p (x ∷ xs) ys = ground (arith, retain-append p xs ys)

  -- Dropping entries first can only shorten what a second test keeps.
  pub length-retain-retain_le :
      (p q : A → Bool) (xs : List A) → length (retain p (retain q xs)) ≤ length (retain p xs)
  unfolding retain
  length-retain-retain_le p q [] = omega arith
  length-retain-retain_le p q (x ∷ xs) = elim (Bool-cases (q x)) [
    | inl e ↦ rw e (ground (arith, length-retain-retain_le p q xs))
    | inr e ↦ rw e (ground (arith, length-retain-retain_le p q xs))
  ]

  -- Dropping the entries that pass frees at least what the first of them holds.
  pub total-retain-find? :
      (f : A → ℕ) (p : A → Bool) (xs : List A) (a : A)
      → find? p xs ≡ some a
      → total f (retain (λ x. not (p x)) xs) + f a ≤ total f xs
  unfolding retain find?
  total-retain-find? f p [] a h = absurd (cc)
  total-retain-find? f p (x ∷ xs) a h = elim (Bool-cases (p x)) [
    | inl e ↦ ground (arith, total-retain_le f (λ y. not (p y)) xs)
    | inr e ↦ ground (arith, total-retain-find? f p xs a)
  ]
