-- ===== src/Resolver/Examples.antt =====
-- Decisions of src/classify/ownership/resolver.rs at concrete evidence, and instances of the theorems.
use wyd.Common.{ℕ, ◌≤◌, ◌≡◌, refl, ◌↔◌, true, false, none, some, List, [], ◌∷◌, arith, retain}
use wyd.Resolver.{
  CandidateInput, direct_child, descendant, v1, owned, candidates_of, candidate, total_points,
  anchor_points, project_support, temporal_support, relationship_points, rejection, evidence_for,
}
use wyd.Resolver.Selection.{resolve, select, sort_by_total, insert_by_total, verdict_of}
use wyd.Resolver.Ownership.{Leads, eligible, resolve-Leads_iff}
use wyd.Resolver.Safety.{Any, Supports, resolve-Supports}

-- A direct child of session 7 in its directory.
abbrev child : CandidateInput
child = record {
  session = 7;
  anchor = some direct_child;
  anchor_score = none;
  propagate_cap = none;
  exact_cwd = true;
  same_git_root = true;
  start_delta_secs = some 4;
  tool_relationship = false;
  predates_session = false;
  reaches_other_agent = false;
}

-- A descendant of session 8, with nothing else for it.
abbrev distant : CandidateInput
distant = record child {
  session = 8;
  anchor = some descendant;
  exact_cwd = false;
  same_git_root = false;
  start_delta_secs = none;
}

-- Project and timing, with no anchor.
abbrev bystander : CandidateInput
bystander = record child { session = 9; anchor = none }

abbrev inputs : List CandidateInput
inputs = distant ∷ bystander ∷ child ∷ []

inputs_owned : ((resolve v1 inputs).verdict ≡ owned) × ((resolve v1 inputs).winner ≡ some 7)
unfolding resolve select candidates_of candidate sort_by_total insert_by_total verdict_of
    total_points anchor_points project_support temporal_support relationship_points rejection
    evidence_for retain
inputs_owned = (refl, refl)

resolve-Leads_iff_example :
    ((resolve v1 inputs).winner ≡ some 7) ↔ Leads v1 (eligible (candidates_of v1 inputs)) 7
resolve-Leads_iff_example = resolve-Leads_iff v1 inputs 7 (omega arith)

resolve-Supports_example : (total : ℕ) × (75 ≤ total) × Any (Supports v1 7 total) inputs
resolve-Supports_example = resolve-Supports v1 inputs 7 (omega arith) inputs_owned.1
