-- ===== src/Store/Insert.antt =====
-- Requests with the same id in `run_insert` of src/store.rs.
use wyd.Common.{
  suc, ◌<◌, subst, List, All, All-map, ℕ, ◌+◌, ◌-◌, ◌≤◌, ◌≡◌, ◌≢◌, refl, ap, ◌∙◌, sym, ◌⊎◌, inl,
  inr, true, none, some, [], ◌∷◌, ◌++◌, arith, ◌==◌, find?, Bool-cases, Option-cases, String,
}
use wyd.Run.{Bytes, RunSpec, fingerprint}
use wyd.Run.Fingerprint.{fingerprint_collides}
use wyd.Store.Calls.{Call, Within, calls, Held, calls-Held}
use wyd.Store.{
  Row, RunId, Store, RunInsert, created, existing, conflict, request_id_window, bytes_eq, recent,
  repeated, new_row, run_insert,
}

bytes_eq_self : (xs : Bytes) → bytes_eq xs xs ≡ true
unfolding bytes_eq
bytes_eq_self [] = refl
bytes_eq_self (x ∷ xs) = ground (arith, bytes_eq_self xs)

recent-new_row :
    (s : Store) (spec : RunSpec) (digest : ℕ) (supervisor : String) (now start : ℕ)
    → start ≤ now
    → recent spec.request_id start (new_row s.next_id digest spec supervisor now ∷ s.runs)
      ≡ some (new_row s.next_id digest spec supervisor now)
unfolding recent find?
recent-new_row s spec digest supervisor now start h = ground (arith, bytes_eq_self spec.request_id)

pair_path : {A B : Type 0} {p : A × B} {a : A} {b : B} → p.0 ≡ a → p.1 ≡ b → p ≡ (a, b)
pair_path e f = λ i. (e i, f i)

module _ (blake3 : Bytes → ℕ) where
  -- The two outcomes of a repeated request.
  abbrev pub Repeats : RunSpec → RunSpec → RunId → RunInsert → Type 0
  Repeats spec again id answer =
      ((fingerprint blake3 again ≡ fingerprint blake3 spec) × (answer ≡ existing id))
      ⊎ ((fingerprint blake3 again ≢ fingerprint blake3 spec) × (answer ≡ conflict id))

  inserted :
      (s : Store) (spec : RunSpec) (supervisor : String) (now : ℕ) (id : RunId) (t : Store)
      → run_insert blake3 s spec supervisor now ≡ (t, created id)
      → (id ≡ s.next_id)
        × (t.runs ≡ new_row s.next_id (fingerprint blake3 spec) spec supervisor now ∷ s.runs)
        × (t.next_id ≡ suc s.next_id)
  unfolding run_insert
  inserted s spec supervisor now id t h =
      elim (Option-cases (recent spec.request_id (now - request_id_window) s.runs)) [
        | inl e ↦ (ground (arith, e), ground (arith, e), ground (arith, e))
        | inr (row, e) ↦ absurd (ground (arith, e))
      ]

  -- The run of a request that was inserted, where the keys of the table are below the next one.
  pub inserted-Held :
      (s t : Store) (spec : RunSpec) (supervisor : String) (now : ℕ) (id : RunId)
      → All (λ r. r.id < s.next_id) s.runs
      → run_insert blake3 s spec supervisor now ≡ (t, created id)
      → Held spec.request_id id (fingerprint blake3 spec) now t.runs t.next_id
  inserted-Held s t spec supervisor now id keys h =
      let (ide, runs, next) = inserted s spec supervisor now id t h in
      let row = new_row s.next_id (fingerprint blake3 spec) spec supervisor now in
      subst (λ n. Held spec.request_id id (fingerprint blake3 spec) now t.runs n) (sym next)
        (subst (λ rs. Held spec.request_id id (fingerprint blake3 spec) now rs (suc s.next_id))
          (sym runs)
          (
            (λ start begun. (
              row,
              recent-new_row s spec (fingerprint blake3 spec) supervisor now start begun,
              (sym ide, refl, refl),
            )),
            ((λ e. refl), All-map (λ r lt e. absurd (omega (arith, lt, e, ide))) s.runs keys),
            omega (arith, ide),
          ))

  -- A request with the id of one that is held.
  pub Held-Repeats :
      (u : Store) (spec again : RunSpec) (other : String) (now later : ℕ) (id next : RunId)
      → Held spec.request_id id (fingerprint blake3 spec) now u.runs next
      → again.request_id ≡ spec.request_id
      → later ≤ now + request_id_window
      → ((run_insert blake3 u again other later).0 ≡ u)
        × Repeats spec again id (run_insert blake3 u again other later).1
  unfolding run_insert
  Held-Repeats u spec again other now later id next held same soon =
      let (row, found, (key, digest, _)) = held.0 (later - request_id_window) (omega arith) in
      let taken : recent again.request_id (later - request_id_window) u.runs ≡ some row =
        ap (λ k. recent k (later - request_id_window) u.runs) same ∙ found in
      rw (taken, run_insert) (refl, answer row key digest)
    where
      answer :
          (row : Row)
          → row.id ≡ id
          → row.fingerprint ≡ fingerprint blake3 spec
          → Repeats spec again id (repeated (fingerprint blake3 again) row)
      answer row key digest = elim (Bool-cases (row.fingerprint == fingerprint blake3 again)) [
        | inl hit ↦ inl (ground (arith, digest), ground (arith, key))
        | inr miss ↦ inr ((λ f. absurd (ground (arith, digest, f))), ground (arith, key))
      ]

  -- A request id that was given a run is given no second one while the window of 24 hours lasts,
  -- whatever calls change the tables in between, other requests included, where their clocks stay
  -- within that window too and only runs created before the first request are pruned: the repeated
  -- request changes nothing, and is answered by that run if it has the same fingerprint, and by a
  -- conflict with that run otherwise. The keys of the table are below the next one.
  pub run_insert-Repeats :
      (s t : Store) (spec again : RunSpec) (supervisor other : String) (now later : ℕ) (id : RunId)
      (between : List Call)
      → All (λ r. r.id < s.next_id) s.runs
      → run_insert blake3 s spec supervisor now ≡ (t, created id)
      → All (Within now) between
      → again.request_id ≡ spec.request_id
      → later ≤ now + request_id_window
      → let u = calls blake3 between t in
        ((run_insert blake3 u again other later).0 ≡ u)
        × Repeats spec again id (run_insert blake3 u again other later).1
  run_insert-Repeats s t spec again supervisor other now later id between keys h within same soon =
      Held-Repeats (calls blake3 between t) spec again other now later id _
        (calls-Held spec.request_id id (fingerprint blake3 spec) now blake3 between t within
          (inserted-Held s t spec supervisor now id keys h))
        same soon

  -- Within the window two requests for different directories are taken for one, whatever the hash:
  -- where the second has the end `d` of the first one's working directory as its project root, it
  -- is answered by the first one's run and starts none of its own.
  run_insert_confuses :
      (s t : Store) (spec : RunSpec) (supervisor other : String) (now later : ℕ) (id : RunId)
      (c d : Bytes)
      → All (λ r. r.id < s.next_id) s.runs
      → run_insert blake3 s (record spec { cwd = c ++ d; project_root = none }) supervisor now
        ≡ (t, created id)
      → later ≤ now + request_id_window
      → run_insert blake3 t (record spec { cwd = c; project_root = some d }) other later
        ≡ (t, existing id)
  unfolding calls
  run_insert_confuses s t spec supervisor other now later id c d keys h soon =
      let first = record spec { cwd = c ++ d; project_root = none } in
      let second = record spec { cwd = c; project_root = some d } in
      let same = (fingerprint_collides blake3 spec spec.argv [] [] c d).1 in
      let (kept, answer) =
        run_insert-Repeats s t first second supervisor other now later id [] keys h tt refl soon in
      elim answer [ inl (_, e) ↦ pair_path kept e | inr (differs, _) ↦ absurd (differs (sym same)) ]
