-- ===== src/Common/Sums.antt =====
-- Sums of a field over a list, exact and as `Iterator::sum` over `u64` computes them.
use Prim.Native.Nat.{ℕ, ◌+◌, ◌^◌, ◌<◌}
use mathlib.Core.Path.{◌≡◌, ◌∙◌, ap}
use mathlib.Core.List.{List, [], ◌∷◌, ◌++◌}
use native.Mathlib.Omega.{arith}
use wyd.Common.Words.{u64, u64-eq_of_lt}

module _ {ℓ} {A : Type ℓ} where
  abbrev pub total : (A → ℕ) → List A → ℕ
  total f [] = 0
  total f (x ∷ xs) = f x + total f xs

  unfoldable pub sum_u64_from : ℕ → (A → ℕ) → List A → ℕ
  sum_u64_from acc f [] = acc
  sum_u64_from acc f (x ∷ xs) = sum_u64_from (u64 (acc + f x)) f xs

  pub total-append : (f : A → ℕ) (xs ys : List A) → total f (xs ++ ys) ≡ total f xs + total f ys
  total-append f [] ys = omega arith
  total-append f (x ∷ xs) ys = omega (arith, total-append f xs ys)

  sum_u64_from-eq :
      (acc : ℕ) (f : A → ℕ) (xs : List A)
      → acc + total f xs < 2 ^ 64
      → sum_u64_from acc f xs ≡ acc + total f xs
  unfolding sum_u64_from
  sum_u64_from-eq acc f [] h = omega arith
  sum_u64_from-eq acc f (x ∷ xs) h =
      ap (λ a. sum_u64_from a f xs) (u64-eq_of_lt (acc + f x) (omega arith))
      ∙ sum_u64_from-eq (acc + f x) f xs (omega arith)
      ∙ omega arith

-- `iter().map(f).sum()` over `u64`.
abbrev pub sum_u64 {ℓ} : {A : Type ℓ} → (A → ℕ) → List A → ℕ
sum_u64 f xs = sum_u64_from 0 f xs

pub sum_u64-eq {ℓ} :
    {A : Type ℓ} (f : A → ℕ) (xs : List A) → total f xs < 2 ^ 64 → sum_u64 f xs ≡ total f xs
sum_u64-eq f xs h = sum_u64_from-eq 0 f xs (omega arith) ∙ omega arith
