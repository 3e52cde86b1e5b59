-- ===== src/Collection/Decision.antt =====
-- What the decisions of src/collect.rs say: the resolver, for the one candidate that is recorded.
use wyd.Common.{
  ℕ, ◌≤◌, ◌<◌, ◌≡◌, refl, ◌⊎◌, inl, inr, true, false, none, some, Bool-cases, [], ◌∷◌, ltb, min,
  retain, saturating_add_u8, arith,
}
use wyd.Identity.{ProcessIdentity}
use wyd.Runtime.{Head}
use wyd.Resolver.{
  AttributionDecision, AttributionCandidate, persisted_previous, v1, owned, unknown, anchor_points,
  rejection, project_support, temporal_support, relationship_points, total_points, candidate,
  candidates_of, is_eligible,
}
use wyd.Resolver.Selection.{insert_by_total, sort_by_total, is_clear, verdict_of, select, resolve}
use wyd.Provenance.Lookup.{Explanation}
use wyd.Collection.{candidate_of}

points-le :
    (a b c : ℕ) → 75 ≤ min (saturating_add_u8 (saturating_add_u8 (saturating_add_u8 75 a) b) c) 100
points-le a b c = omega arith

candidate_of-total :
    (h : Head) (root : ProcessIdentity) (e : Explanation)
    → 75 ≤ total_points v1 (candidate_of h root e) persisted_previous
unfolding total_points anchor_points candidate_of
candidate_of-total h root e =
    points-le (project_support v1 (candidate_of h root e))
      (temporal_support v1 (candidate_of h root e).start_delta_secs)
      (relationship_points v1 (candidate_of h root e))

select-rejected :
    (c : AttributionCandidate)
    → is_eligible c ≡ false
    → ((select v1 (c ∷ [])).verdict ≡ unknown) × ((select v1 (c ∷ [])).winner ≡ none)
unfolding select retain sort_by_total verdict_of
select-rejected c e = rw (e, select) (refl, refl)

select-accepted :
    (c : AttributionCandidate)
    → is_eligible c ≡ true
    → 75 ≤ c.total
    → ((select v1 (c ∷ [])).verdict ≡ owned) × ((select v1 (c ∷ [])).winner ≡ some c.session)
unfolding select retain sort_by_total insert_by_total verdict_of is_clear
select-accepted c e h =
    let high : ltb c.total 75 ≡ false = ground arith in
    rw (e, select) (rw (high, verdict_of) (refl, refl))

candidate-early :
    (h : Head) (root : ProcessIdentity) (e : Explanation)
    → ltb root.start_time e.session.started_at ≡ true
    → is_eligible (candidate v1 (candidate_of h root e) persisted_previous) ≡ false
unfolding candidate rejection candidate_of
candidate-early h root e early = rw early refl

candidate-late :
    (h : Head) (root : ProcessIdentity) (e : Explanation)
    → ltb root.start_time e.session.started_at ≡ false
    → is_eligible (candidate v1 (candidate_of h root e) persisted_previous) ≡ true
unfolding candidate rejection candidate_of
candidate-late h root e late = rw late refl

-- The decision for a resource with recorded provenance: it is the recorded owner's, without doubt,
-- or nobody's.
abbrev pub Names : AttributionDecision → ProcessIdentity → Explanation → Type 0
Names d root e =
    ((e.session.started_at ≤ root.start_time) × (d.verdict ≡ owned) × (d.winner ≡ some e.owner))
    ⊎ ((root.start_time < e.session.started_at) × (d.verdict ≡ unknown) × (d.winner ≡ none))

-- The decision that a scan records of a resource with recorded provenance names the recorded owner,
-- whatever the projects, the times and the category are, unless the resource began before that
-- owner's session: then the verdict is unknown and nobody is named. It is never ambiguous.
resolve-Names :
    (h : Head) (root : ProcessIdentity) (e : Explanation)
    → Names (resolve v1 (candidate_of h root e ∷ [])) root e
unfolding resolve candidates_of candidate candidate_of
resolve-Names h root e =
    let c = candidate v1 (candidate_of h root e) persisted_previous in
    elim (Bool-cases (ltb root.start_time e.session.started_at)) [
      | inl early ↦
          let d = select-rejected c (candidate-early h root e early) in inr (ground arith, d.0, d.1)
      | inr late ↦
          let d = select-accepted c (candidate-late h root e late) (candidate_of-total h root e) in
          inl (ground arith, d.0, d.1)
    ]
