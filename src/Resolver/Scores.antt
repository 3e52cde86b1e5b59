-- ===== src/Resolver/Scores.antt =====
-- The bounds of a candidate's score in src/classify/ownership/resolver.rs.
use wyd.Common.{
  ℕ, ◌+◌, ◌≤◌, ◌≡◌, refl, Option, none, some, arith, min, is_some, true, ◌⊎◌, inl, inr,
  Option-cases, Bool-cases, leb,
}
use wyd.Resolver.{
  CandidateInput, AnchorKind, ResolverRules, v1, anchor_points, project_support, temporal_support,
  relationship_points, total_points, capped,
}

-- A cap on the score, if there is one.
abbrev pub AtMost : ℕ → Option ℕ → Type 0
AtMost n none = Unit {0}
AtMost n (some cap) = n ≤ cap

capped_bounds :
    (cap : Option ℕ) (n : ℕ)
    → (capped cap n ≤ n) × AtMost (capped cap n) cap × (cap ≡ none → capped cap n ≡ n)
capped_bounds none n = (omega arith, tt, (λ _. refl))
capped_bounds (some c) n = (omega arith, omega arith, (λ h. absurd (cc)))

project_support-le :
    (rules : ResolverRules) (input : CandidateInput)
    → project_support rules input ≤ rules.project_cap
unfolding project_support
project_support-le rules input = omega arith

temporal_support-le :
    (rules : ResolverRules) (d : Option ℕ) → temporal_support rules d ≤ rules.temporal_cap
unfolding temporal_support
temporal_support-le rules none = omega arith
temporal_support-le rules (some d) = omega arith

relationship_points-le :
    (rules : ResolverRules) (input : CandidateInput)
    → relationship_points rules input ≤ rules.relationship_cap
unfolding relationship_points
relationship_points-le rules input = omega arith

-- No score passes 100, nor the score of the owned parent that it was propagated from; with no such
-- cap the score is at least its anchor's (as far as that goes to 100), so that support never lowers
-- it, and at most the anchor's and the three caps of the families together.
total_points_bounds :
    (rules : ResolverRules) (input : CandidateInput) (anchor : AnchorKind)
    → let total = total_points rules input anchor in
      let points = anchor_points rules anchor input.anchor_score in
      (total ≤ 100)
      × AtMost total input.propagate_cap
      × ((is_some input.propagate_cap ≡ true) ⊎ (min points 100 ≤ total))
      × (total ≤ points + (rules.project_cap + rules.temporal_cap + rules.relationship_cap))
unfolding total_points
total_points_bounds rules input anchor =
    let project = project_support-le rules input in
    let temporal = temporal_support-le rules input.start_delta_secs in
    let relationship = relationship_points-le rules input in
    let (below, capped_by, same) = capped_bounds input.propagate_cap _ in
    (
      omega (arith, below),
      capped_by,
      elim (Option-cases input.propagate_cap) [
        | inl e ↦ inr (omega (arith, same e))
        | inr (cap, e) ↦ inl (rw e refl)
      ],
      omega (arith, below, project, temporal, relationship),
    )

-- Under the rules of version 1 a later start never gives more temporal support, and none is given
-- after five minutes.
temporal_support-v1_antitone :
    (d d' : ℕ)
    → d ≤ d'
    → (temporal_support v1 (some d') ≤ temporal_support v1 (some d))
      × ((d' ≤ 300) ⊎ (temporal_support v1 (some d') ≡ 0))
unfolding temporal_support
temporal_support-v1_antitone d d' h = (
  ground arith,
  elim (Bool-cases (leb d' 300)) [ inl e ↦ inl (ground arith) | inr e ↦ inr (ground arith) ],
)
