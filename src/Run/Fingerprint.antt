-- ===== src/Run/Fingerprint.antt =====
-- Which requests src/model/run.rs takes for the same one, whatever the hash.
use mathlib.Core.List.{append_assoc, append-nil}
use wyd.Common.{ℕ, ◌≡◌, refl, ap, ◌∙◌, sym, Option, none, some, List, [], ◌∷◌, ◌++◌}
use wyd.Run.{Bytes, RunSpec, hashed_bytes, argv_bytes, fingerprint}

argv_bytes-append : (xs ys : List Bytes) → argv_bytes (xs ++ ys) ≡ argv_bytes xs ++ argv_bytes ys
unfolding argv_bytes
argv_bytes-append [] ys = refl
argv_bytes-append (x ∷ xs) ys =
    ap (λ l. 0 ∷ (x ++ l)) (argv_bytes-append xs ys)
    ∙ ap (λ l. 0 ∷ l) (sym (append_assoc x (argv_bytes xs) (argv_bytes ys)))

-- The working directory follows the last argument with nothing between them, and so does the
-- project root the working directory. So two different requests have the same fingerprint under
-- every hash: where the end `b` of the last argument moves to the front of the directory, and where
-- the end `d` of the directory moves into the project root.
pub fingerprint_collides :
    (blake3 : Bytes → ℕ) (spec : RunSpec) (argv : List Bytes) (a b c d : Bytes)
    → let of = λ (argv' : List Bytes) (cwd : Bytes) (root : Option Bytes).
      fingerprint blake3 (record spec { argv = argv'; cwd = cwd; project_root = root }) in
      (of (argv ++ (a ++ b) ∷ []) c none ≡ of (argv ++ a ∷ []) (b ++ c) none)
      × (of argv (c ++ d) none ≡ of argv c (some d))
unfolding fingerprint hashed_bytes argv_bytes
fingerprint_collides blake3 spec argv a b c d =
    (ap blake3 (simp (argv_bytes-append, append_assoc, append-nil)), ap blake3 (simp append_assoc))
