-- ===== src/Run/Examples.antt =====
-- Requests of src/model/run.rs, and instances of the theorems about them.
use wyd.Common.{ℕ, ◌+◌, ◌≡◌, refl, ◌↔◌, true, Option, none, some, is_some, List, [], ◌∷◌, ◌++◌}
use wyd.Run.{
  Bytes, RunSpec, finished, exited, pending, hard, parse_state, state_as_str, parse_outcome,
  outcome_as_str, parse_cleanup, cleanup_as_str, new, fingerprint, empty_request,
}
use wyd.Run.Names.{parse-as_str_iff}
use wyd.Run.Capabilities.{
  macos, other, check_capabilities, only_monitoring, memory, rss_sampled,
  check_capabilities-passes_iff, first_refusal, backend_capabilities, memory_capability,
}
use wyd.Run.Fingerprint.{fingerprint_collides}

-- The bytes of `cargo test`, in `/w`, and the name of a request.
abbrev argv : List Bytes
argv = (99 ∷ 97 ∷ 114 ∷ 103 ∷ 111 ∷ []) ∷ (116 ∷ 101 ∷ 115 ∷ 116 ∷ []) ∷ []

abbrev spec : RunSpec
unfolding new
spec = new (114 ∷ 49 ∷ []) argv (47 ∷ 119 ∷ [])

abbrev hard_spec : RunSpec
hard_spec = record spec {
  resources = record empty_request { memory_bytes = some 1000; enforcement = hard };
}

-- A hash that adds the bytes up.
abbrev digest : Bytes → ℕ
digest [] = 0
digest (b ∷ bs) = b + digest bs

hard_memory_refused :
    check_capabilities macos true hard_spec ≡ some (only_monitoring memory rss_sampled)
unfolding check_capabilities first_refusal backend_capabilities memory_capability
hard_memory_refused = refl

parse-as_str_iff_example :
    ((parse_state "finished" ≡ some finished) ↔ (state_as_str finished ≡ "finished"))
    × ((parse_outcome "finished" ≡ some exited) ↔ (outcome_as_str exited ≡ "finished"))
    × ((parse_cleanup "finished" ≡ some pending) ↔ (cleanup_as_str pending ≡ "finished"))
parse-as_str_iff_example = parse-as_str_iff "finished" finished exited pending

check_capabilities-passes_iff_example : (check_capabilities other true hard_spec ≡ none) ↔ (
    hard ≡ hard
    → (is_some {A = ℕ} (some 1000) ≡ true → (other ≡ other) × (true ≡ true))
      × (is_some {A = ℕ} none ≡ true → true ≡ true)
      × (is_some {A = ℕ} none ≡ true → true ≡ true))
check_capabilities-passes_iff_example = check_capabilities-passes_iff other true hard_spec

fingerprint_collides_example :
    let of = λ (argv' : List Bytes) (cwd : Bytes) (root : Option Bytes).
      fingerprint digest (record spec { argv = argv'; cwd = cwd; project_root = root }) in
    (of (argv ++ (97 ∷ 98 ∷ []) ∷ []) (47 ∷ []) none
      ≡ of (argv ++ (97 ∷ []) ∷ []) (98 ∷ 47 ∷ []) none)
    × (of argv (47 ∷ 119 ∷ []) none ≡ of argv (47 ∷ []) (some (119 ∷ [])))
fingerprint_collides_example =
    fingerprint_collides digest spec argv (97 ∷ []) (98 ∷ []) (47 ∷ []) (119 ∷ [])
