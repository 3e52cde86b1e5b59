-- ===== src/Identity/Ids.antt =====
-- The bytes that the ids of src/model/session.rs and src/classify/ownership/mod.rs are hashes of.
use mathlib.Core.List.{append-nil}
use wyd.Common.{
  ℕ, zero, suc, ◌+◌, ◌*◌, ◌/◌, ◌^◌, ◌<◌, ◌≡◌, ◌↔◌, refl, ap, ◌∙◌, sym, [], ◌∷◌, ◌++◌, arith,
}
use wyd.Run.{Bytes, to_le_bytes}
use wyd.Identity.{ProcessIdentity, session_parts, resource_parts}
use wyd.Identity.Hash.{concat}

-- The number that bytes stand for, the least byte first.
abbrev from_le_bytes : Bytes → ℕ
from_le_bytes [] = 0
from_le_bytes (b ∷ bs) = b + 256 * from_le_bytes bs

unfoldable bound : ℕ → ℕ
bound zero = 1
bound (suc w) = 256 * bound w

le_bytes_round : (w n : ℕ) → n < bound w → from_le_bytes (to_le_bytes w n) ≡ n
unfolding to_le_bytes bound
le_bytes_round zero n h = omega arith
le_bytes_round (suc w) n h = omega (arith, le_bytes_round w (n / 256) (omega arith))

cons-injective : (x y : ℕ) (xs ys : Bytes) → x ∷ xs ≡ y ∷ ys → (x ≡ y) × (xs ≡ ys)
cons-injective x y xs ys e = (cc, cc)

split :
    (w n m : ℕ) (xs ys : Bytes)
    → to_le_bytes w n ++ xs ≡ to_le_bytes w m ++ ys
    → (to_le_bytes w n ≡ to_le_bytes w m) × (xs ≡ ys)
unfolding to_le_bytes
split zero n m xs ys e = (refl, e)
split (suc w) n m xs ys e =
    let (byte, rest) = cons-injective _ _ _ _ e in
    let (bytes, left) = split w (n / 256) (m / 256) xs ys rest in (cc, left)

field-injective :
    (w n m : ℕ) (xs ys : Bytes)
    → n < bound w
    → m < bound w
    → to_le_bytes w n ++ xs ≡ to_le_bytes w m ++ ys
    → (n ≡ m) × (xs ≡ ys)
field-injective w n m xs ys hn hm e =
    let (bytes, left) = split w n m xs ys e in
    (sym (le_bytes_round w n hn) ∙ ap from_le_bytes bytes ∙ le_bytes_round w m hm, left)

-- The fields are in the ranges of their types.
abbrev pub Fits : ProcessIdentity → Type 0
Fits root = (root.boot_id < 2 ^ 128) × (root.pid < 2 ^ 32) × (root.start_time < 2 ^ 64)

root-injective :
    (a b : ProcessIdentity) (xs ys : Bytes)
    → Fits a
    → Fits b
    → to_le_bytes 16 a.boot_id ++ (to_le_bytes 4 a.pid ++ (to_le_bytes 8 a.start_time ++ xs))
      ≡ to_le_bytes 16 b.boot_id ++ (to_le_bytes 4 b.pid ++ (to_le_bytes 8 b.start_time ++ ys))
    → (a ≡ b) × (xs ≡ ys)
unfolding bound
root-injective a b xs ys (ha, hb, hc) (ka, kb, kc) e =
    let (boot, e₁) = field-injective 16 a.boot_id b.boot_id _ _ ha ka e in
    let (pid, e₂) = field-injective 4 a.pid b.pid _ _ hb kb e₁ in
    let (start, left) = field-injective 8 a.start_time b.start_time xs ys hc kc e₂ in
    (λ i. record { boot_id = boot i; pid = pid i; start_time = start i }, left)

-- For fields in the ranges of their types, the bytes that a session's id is hashed from determine
-- its root and its agent, and those of a resource's id its root, although the parts are hashed with
-- nothing between them: two sessions or two resources share an id only where the hash itself
-- collides.
session_parts-injective :
    (a b : ProcessIdentity) (x y : Bytes)
    → Fits a
    → Fits b
    → (concat (session_parts a x) ≡ concat (session_parts b y) ↔ (a ≡ b) × (x ≡ y))
      × (concat (resource_parts a) ≡ concat (resource_parts b) ↔ a ≡ b)
session_parts-injective a b x y ha hb = (
  (
    (λ e.
        let (root, agent) = root-injective a b (x ++ []) (y ++ []) ha hb e in
        (root, sym (append-nil x) ∙ agent ∙ append-nil y)),
    (λ (root, agent). λ i. concat (session_parts (root i) (agent i))),
  ),
  ((λ e. (root-injective a b [] [] ha hb e).0), (λ root. ap (λ r. concat (resource_parts r)) root)),
)
