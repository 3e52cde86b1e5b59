-- ===== src/Identity/Hash.antt =====
-- The FNV-1a loop of src/model/session.rs.
use Prim.Native.Nat.{bit_xor}
use mathlib.Core.List.{append-nil}
use wyd.Common.{ℕ, ◌*◌, ◌^◌, ◌<◌, ◌≡◌, refl, ap, ◌∙◌, sym, List, [], ◌∷◌, ◌++◌, arith, u64}
use wyd.Run.{Bytes}
use wyd.Identity.{fnv_part, fnv_parts, fnv1a, fnv_offset, fnv_prime}

fnv_part-append : (h : ℕ) (xs ys : Bytes) → fnv_part h (xs ++ ys) ≡ fnv_part (fnv_part h xs) ys
unfolding fnv_part
fnv_part-append h [] ys = refl
fnv_part-append h (x ∷ xs) ys = fnv_part-append (u64 (bit_xor h x * fnv_prime)) xs ys

abbrev pub concat : List Bytes → Bytes
concat [] = []
concat (part ∷ parts) = part ++ concat parts

pub fnv_parts-concat : (h : ℕ) (parts : List Bytes) → fnv_parts h parts ≡ fnv_part h (concat parts)
unfolding fnv_parts fnv_part
fnv_parts-concat h [] = refl
fnv_parts-concat h (part ∷ parts) =
    fnv_parts-concat (fnv_part h part) parts ∙ sym (fnv_part-append h part (concat parts))

fnv_part-lt : (h : ℕ) (bytes : Bytes) → h < 2 ^ 64 → fnv_part h bytes < 2 ^ 64
unfolding fnv_part
fnv_part-lt h [] k = k
fnv_part-lt h (b ∷ bytes) k = fnv_part-lt (u64 (bit_xor h b * fnv_prime)) bytes (omega arith)

-- The hash is a `u64`, and depends on the bytes of the parts one after the other only: where one
-- part ends and the next begins leaves no trace.
fnv1a-concat :
    (parts : List Bytes) → (fnv1a parts ≡ fnv1a (concat parts ∷ [])) × (fnv1a parts < 2 ^ 64)
unfolding fnv1a
fnv1a-concat parts = (
  fnv_parts-concat fnv_offset parts
      ∙ ap (fnv_part fnv_offset) (sym (append-nil (concat parts)))
      ∙ sym (fnv_parts-concat fnv_offset (concat parts ∷ [])),
  rw (fnv_parts-concat fnv_offset parts) (fnv_part-lt fnv_offset (concat parts) (omega arith)),
)
