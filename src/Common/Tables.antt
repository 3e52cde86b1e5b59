-- ===== src/Common/Tables.antt =====
-- Rows of a table: the statements of SQL that the source uses, over a list of rows.
use mathlib.Core.Path.{◌≡◌, refl, ap, ap₂, sym, subst, ◌∙◌}
use mathlib.Core.Logic.{◌⊎◌, inl, inr}
use mathlib.Core.Bool.{Bool, true, false, ◌||◌}
use mathlib.Core.List.{List, [], ◌∷◌, ◌++◌, map}
use native.Mathlib.Omega.{arith}
use Prim.Native.Nat.{ℕ}
use wyd.Common.Tests.{if◌then◌else◌, Bool-cases, ◌==◌, ==_iff}
use wyd.Common.Search.{All-map, All-append}
use wyd.Common.Lists.{All, retain}

module _ {ℓ} {A : Type ℓ} where
  -- `any`, EXISTS: whether a row passes.
  unfoldable pub any : (A → Bool) → List A → Bool
  any p [] = false
  any p (x ∷ xs) = p x || any p xs

  -- UPDATE … WHERE.
  unfoldable pub update_where : (A → Bool) → (A → A) → List A → List A
  update_where p f [] = []
  update_where p f (x ∷ xs) = (if p x then f x else x) ∷ update_where p f xs

  -- INSERT … ON CONFLICT DO UPDATE, where the rows in conflict are those that pass.
  unfoldable pub upsert : (A → Bool) → (A → A) → A → List A → List A
  upsert p f new xs = if any p xs then update_where p f xs else xs ++ new ∷ []

  pub update_where-All {κ} :
      (P : A → Type κ) (p : A → Bool) (f : A → A) (xs : List A)
      → ((x : A) → p x ≡ true → P x → P (f x))
      → All P xs
      → All P (update_where p f xs)
  unfolding update_where
  update_where-All P p f [] keep h = tt
  update_where-All P p f (x ∷ xs) keep h = elim (Bool-cases (p x)) [
    | inl e ↦ rw e (keep x e h.0, update_where-All P p f xs keep h.1)
    | inr e ↦ rw e (h.0, update_where-All P p f xs keep h.1)
  ]

  -- The rows that one query finds for each row of another: a join, as one list.
  unfoldable pub flat_map {κ} : {B : Type κ} → (A → List B) → List A → List B
  flat_map f [] = []
  flat_map f (x ∷ xs) = f x ++ flat_map f xs

  -- Dropping rows that join with nothing changes no join.
  pub flat_map-retain {κ} :
      {B : Type κ} (f g : A → List B) (p : A → Bool) (xs : List A)
      → All (λ x. ((p x ≡ true) × (f x ≡ g x)) ⊎ ((p x ≡ false) × (g x ≡ []))) xs
      → flat_map f (retain p xs) ≡ flat_map g xs
  unfolding flat_map retain
  flat_map-retain f g p [] h = refl
  flat_map-retain f g p (x ∷ xs) h = elim h.0 [
    | inl (k, e) ↦ rw k (ap₂ ◌++◌ e (flat_map-retain f g p xs h.1))
    | inr (k, e) ↦ rw (k, e) (flat_map-retain f g p xs h.1)
  ]

  pub any-append : (p : A → Bool) (xs ys : List A) → any p (xs ++ ys) ≡ (any p xs || any p ys)
  unfolding any
  any-append p [] ys = refl
  any-append p (x ∷ xs) ys = ground (arith, any-append p xs ys)

  -- Rows that are found stay found where what is looked for is not updated.
  pub any-update_where :
      (p q : A → Bool) (f : A → A) (xs : List A)
      → ((x : A) → q (f x) ≡ q x)
      → any q (update_where p f xs) ≡ any q xs
  unfolding any update_where
  any-update_where p q f [] same = refl
  any-update_where p q f (x ∷ xs) same = elim (Bool-cases (p x)) [
    | inl e ↦ rw (e, same x) (ap (◌||◌ (q x)) (any-update_where p q f xs same))
    | inr e ↦ rw e (ap (◌||◌ (q x)) (any-update_where p q f xs same))
  ]

  pub any-upsert :
      (p q : A → Bool) (f : A → A) (new : A) (xs : List A)
      → ((x : A) → q (f x) ≡ q x)
      → any q xs ≡ true
      → any q (upsert p f new xs) ≡ true
  unfolding upsert
  any-upsert p q f new xs same h = elim (Bool-cases (any p xs)) [
    | inl e ↦ rw e (any-update_where p q f xs same ∙ h)
    | inr e ↦ rw e (any-append q xs (new ∷ []) ∙ ap (λ b. b || any q (new ∷ [])) h)
  ]

  pub any-upsert_key :
      (p : A → Bool) (f : A → A) (new : A) (xs : List A)
      → ((x : A) → p (f x) ≡ p x)
      → p new ≡ true
      → any p (upsert p f new xs) ≡ true
  unfolding upsert any
  any-upsert_key p f new xs same h = elim (Bool-cases (any p xs)) [
    | inl e ↦ rw e (any-update_where p p f xs same ∙ e)
    | inr e ↦ rw e (any-append p xs (new ∷ []) ∙ ground arith)
  ]

  pub upsert-All {κ} :
      (P : A → Type κ) (p : A → Bool) (f : A → A) (new : A) (xs : List A)
      → ((x : A) → p x ≡ true → P x → P (f x))
      → P new
      → All P xs
      → All P (upsert p f new xs)
  unfolding upsert
  upsert-All P p f new xs keep n h = elim (Bool-cases (any p xs)) [
    | inl e ↦ rw e (update_where-All P p f xs keep h)
    | inr e ↦ rw e (All-append P xs (new ∷ []) h (n, tt))
  ]

  pub retain-keep :
      (p : A → Bool) (x : A) (xs : List A) → p x ≡ true → retain p (x ∷ xs) ≡ x ∷ retain p xs
  unfolding retain
  retain-keep p x xs e = rw e refl

  pub retain-drop :
      (p : A → Bool) (x : A) (xs : List A) → p x ≡ false → retain p (x ∷ xs) ≡ retain p xs
  unfolding retain
  retain-drop p x xs e = rw e refl

  pub any-none_All : (p : A → Bool) (xs : List A) → any p xs ≡ false → All (λ x. p x ≡ false) xs
  unfolding any
  any-none_All p [] h = tt
  any-none_All p (x ∷ xs) h = (ground arith, any-none_All p xs (ground arith))

  -- After an upsert every row is one that is not in conflict, an updated one, or the new one.
  pub upsert-sets {κ} :
      (P : A → Type κ) (p : A → Bool) (f : A → A) (new : A) (xs : List A)
      → ((x : A) → p x ≡ false → P x)
      → ((x : A) → p x ≡ true → P (f x))
      → P new
      → All P (upsert p f new xs)
  unfolding upsert update_where
  upsert-sets P p f new xs other set n = elim (Bool-cases (any p xs)) [
    | inl e ↦ rw e (updated xs)
    | inr e ↦ rw e (All-append P xs (new ∷ []) (All-map other xs (any-none_All p xs e)) (n, tt))
  ]
    where
      updated : (ys : List A) → All P (update_where p f ys)
      updated [] = tt
      updated (y ∷ ys) = elim (Bool-cases (p y)) [
        | inl e ↦ rw e (set y e, updated ys)
        | inr e ↦ rw e (other y e, updated ys)
      ]

  pub any-retain_kept :
      (p q : A → Bool) (xs : List A)
      → ((x : A) → q x ≡ true → p x ≡ true)
      → any q xs ≡ true
      → any q (retain p xs) ≡ true
  unfolding any retain
  any-retain_kept p q [] keep h = absurd (cc)
  any-retain_kept p q (x ∷ xs) keep h = elim (Bool-cases (q x)) [
    | inl e ↦ rw (keep x e) (rw e refl)
    | inr e ↦ elim (Bool-cases (p x)) [
      | inl f ↦ rw f (rw e (any-retain_kept p q xs keep (ground arith)))
      | inr f ↦ rw f (any-retain_kept p q xs keep (ground arith))
    ]
  ]

-- What is found among all rows and not among those that are kept is a row that is dropped.
pub any-retain_lost {ℓ} :
    {A : Type ℓ} (p q : A → Bool) (xs : List A)
    → any q xs ≡ true
    → any q (retain p xs) ≡ false
    → (x : A) × (q x ≡ true) × (p x ≡ false)
unfolding any retain
any-retain_lost p q [] h k = absurd (cc)
any-retain_lost p q (x ∷ xs) h k = elim (Bool-cases (p x)) [
  | inl e ↦
      let k' : any q (x ∷ retain p xs) ≡ false = sym (ap (any q) (retain-keep p x xs e)) ∙ k in
      any-retain_lost p q xs (ground arith) (ground arith)
  | inr e ↦ elim (Bool-cases (q x)) [
    | inl f ↦ (x, f, e)
    | inr f ↦ any-retain_lost p q xs (ground arith) (sym (ap (any q) (retain-drop p x xs e)) ∙ k)
  ]
]

-- A row that passes is found among those that pass, by any field of it.
pub retain-All-any {ℓ} :
    {A : Type ℓ} (f : A → ℕ) (p : A → Bool) (xs : List A)
    → All (λ x. p x ≡ true → any (◌==◌ (f x)) (map f (retain p xs)) ≡ true) xs
unfolding any retain
retain-All-any f p [] = tt
retain-All-any f p (x ∷ xs) = elim (Bool-cases (p x)) [
  | inl e ↦ (
    λ _. rw e (grind arith),
    All-map (λ y h k. rw e (ground (arith, h k))) xs (retain-All-any f p xs),
  )
  | inr e ↦ (λ k. absurd (cc), All-map (λ y h k. rw e (h k)) xs (retain-All-any f p xs))
]

-- Every row is found by any field of it.
pub any_self {ℓ} :
    {A : Type ℓ} (f : A → ℕ) (xs : List A) → All (λ x. any (λ y. f y == f x) xs ≡ true) xs
unfolding any
any_self f [] = tt
any_self f (x ∷ xs) = (grind arith, All-map (λ y h. ground (arith, h)) xs (any_self f xs))

-- What holds of all numbers of a list holds of each that is found there.
pub All-any {κ} : (P : ℕ → Type κ) (xs : List ℕ) (a : ℕ) → All P xs → any (◌==◌ a) xs ≡ true → P a
unfolding any
All-any P [] a ok h = absurd (cc)
All-any P (x ∷ xs) a ok h = elim (Bool-cases (a == x)) [
  | inl e ↦ subst P (sym ((==_iff a x).0 e)) ok.0
  | inr e ↦ All-any P xs a ok.1 (ground arith)
]

pub any-All : (xs : List ℕ) → All (λ x. any (◌==◌ x) xs ≡ true) xs
unfolding any
any-All [] = tt
any-All (x ∷ xs) = (grind arith, All-map (λ y k. ground (arith, k)) xs (any-All xs))
