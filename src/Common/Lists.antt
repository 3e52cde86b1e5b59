-- ===== src/Common/Lists.antt =====
-- Lists measured and indexed by native numbers, and the iterator chains of the source:
-- `retain`/`filter`, `find`, `enumerate`, `min_by_key`, `position` and `VecDeque::remove`.
use Prim.Native.Nat.{ℕ, zero, suc, ◌+◌}
use mathlib.Core.Path.{◌≡◌}
use mathlib.Core.Bool.{Bool}
use mathlib.Core.List.{List, [], ◌∷◌, ◌++◌}
use mathlib.Core.Option.{Option, none, some}
use native.Mathlib.Omega.{arith}
use wyd.Common.Tests.{leb, if◌then◌else◌}

module _ {ℓ} {A : Type ℓ} where
  abbrev pub length : List A → ℕ
  length [] = 0
  length (x ∷ xs) = suc (length xs)

  abbrev pub get_elem? : List A → ℕ → Option A
  get_elem? [] i = none
  get_elem? (x ∷ xs) zero = some x
  get_elem? (x ∷ xs) (suc i) = get_elem? xs i

  abbrev pub take : ℕ → List A → List A
  take zero xs = []
  take (suc n) [] = []
  take (suc n) (x ∷ xs) = x ∷ take n xs

  pub length-append : (xs ys : List A) → length (xs ++ ys) ≡ length xs + length ys
  length-append [] ys = omega arith
  length-append (x ∷ xs) ys = omega (arith, length-append xs ys)

-- A predicate on every entry, as a tuple.
abbrev pub All {ℓ κ} : {A : Type ℓ} → (A → Type κ) → List A → Type κ
All P [] = Unit
All P (x ∷ xs) = P x × All P xs

-- A predicate on the value of an option, if there is one.
abbrev pub OnSome {ℓ κ} : {A : Type ℓ} → (A → Type κ) → Option A → Type κ
OnSome P none = Unit
OnSome P (some a) = P a

module _ {ℓ} {A : Type ℓ} where
  -- `retain`, `filter`: the entries that pass, in order.
  unfoldable pub retain : (A → Bool) → List A → List A
  retain p [] = []
  retain p (x ∷ xs) = let rest = retain p xs in if p x then x ∷ rest else rest

  -- `find`: the first entry that passes.
  unfoldable pub find? : (A → Bool) → List A → Option A
  find? p [] = none
  find? p (x ∷ xs) = let rest = find? p xs in if p x then some x else rest

  unfoldable pub enumerate_from : ℕ → List A → List (ℕ × A)
  enumerate_from k [] = []
  enumerate_from k (x ∷ xs) = (k, x) ∷ enumerate_from (suc k) xs

  -- `min_by_key`: the first of the entries with the least key.
  unfoldable pub min_by_key : (A → ℕ) → List A → Option A
  min_by_key key [] = none
  min_by_key key (x ∷ xs) = elim (min_by_key key xs) [
    | none ↦ some x
    | some y ↦ if leb (key x) (key y) then some x else some y
  ]

  -- `VecDeque::remove`: the entry at an index, and the others in order.
  unfoldable pub remove_at : ℕ → List A → Option (A × List A)
  remove_at i [] = none
  remove_at zero (x ∷ xs) = some (x, xs)
  remove_at (suc i) (x ∷ xs) = elim (remove_at i xs) [
    | none ↦ none
    | some (y, ys) ↦ some (y, x ∷ ys)
  ]

abbrev pub enumerate {ℓ} : {A : Type ℓ} → List A → List (ℕ × A)
enumerate xs = enumerate_from 0 xs
