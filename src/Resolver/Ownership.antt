-- ===== src/Resolver/Ownership.antt =====
-- When `resolve` of src/classify/ownership/resolver.rs names an owner: a description with no sort.
use wyd.Common.{
  ◌-◌, ◌≤◌, ◌<◌, ◌≡◌, refl, ap, ◌∙◌, subst, ◌↔◌, ◌≢◌, inl, inr, true, none, some, List, [], ◌∷◌,
  ◌++◌, arith, ltb, Bool-cases, retain, All, All-map, All-append, All-append_right,
}
use wyd.Resolver.{
  RuntimeSessionId, CandidateInput, AttributionCandidate, ResolverRules, owned, unknown,
  is_eligible, candidates_of,
}
use wyd.Resolver.Selection.{sort_by_total, is_clear, verdict_of, winner_of, select, resolve}
use wyd.Resolver.Sorting.{sort_by_total-Top, sort_by_total-leader, is_clear-All, All-is_clear}

-- The candidates that no contradiction rejects.
abbrev pub eligible : List AttributionCandidate → List AttributionCandidate
eligible = retain is_eligible

-- One candidate reaches the threshold, and leads each of the others by the margin.
abbrev pub Leads : ResolverRules → List AttributionCandidate → RuntimeSessionId → Type 0
Leads rules cs session =
    (front : List AttributionCandidate) × (c : AttributionCandidate) × (back : List
      AttributionCandidate)
    × (cs ≡ front ++ c ∷ back)
    × (c.session ≡ session)
    × (rules.ownership_threshold ≤ c.total)
    × All (λ d. rules.ambiguity_margin ≤ c.total - d.total) (front ++ back)

top_wins :
    (rules : ResolverRules) (c : AttributionCandidate) (rest : List AttributionCandidate)
    (session : RuntimeSessionId)
    → winner_of (verdict_of rules (c ∷ rest)) (c ∷ rest) ≡ some session
    → (c.session ≡ session) × (rules.ownership_threshold ≤ c.total) × (is_clear rules c rest ≡ true)
unfolding verdict_of
top_wins rules c rest session h = elim (Bool-cases (ltb c.total rules.ownership_threshold)) [
  | inl low ↦ absurd (ground arith)
  | inr high ↦ elim (Bool-cases (is_clear rules c rest)) [
    | inl clear ↦ (ground arith, ground arith, clear)
    | inr near ↦ absurd (ground arith)
  ]
]

wins_top :
    (rules : ResolverRules) (c : AttributionCandidate) (rest : List AttributionCandidate)
    → rules.ownership_threshold ≤ c.total
    → is_clear rules c rest ≡ true
    → verdict_of rules (c ∷ rest) ≡ owned
unfolding verdict_of
wins_top rules c rest high clear = ground arith

low_top :
    (rules : ResolverRules) (c : AttributionCandidate) (rest : List AttributionCandidate)
    → verdict_of rules (c ∷ rest) ≡ unknown
    → c.total < rules.ownership_threshold
unfolding verdict_of
low_top rules c rest h = ground arith

owned-Leads :
    (rules : ResolverRules) (cs : List AttributionCandidate) (session : RuntimeSessionId)
    → (select rules cs).winner ≡ some session
    → Leads rules (eligible cs) session
unfolding select verdict_of
owned-Leads rules cs session w = elim (sort_by_total-Top (eligible cs)) [
  | inl (e, o) ↦ absurd (cc (rw (o, verdict_of) at w))
  | inr (front, c, back, e, o, high, low) ↦
      let won =
        top_wins rules c (sort_by_total (front ++ back)) session
          (subst (λ l. winner_of (verdict_of rules l) l ≡ some session) o w) in
      (front, c, back, e, won.0, won.1, is_clear-All rules c (front ++ back) won.2)
]

-- With a positive margin only the top of the sort can lead.
Leads-owned :
    (rules : ResolverRules) (cs : List AttributionCandidate) (session : RuntimeSessionId)
    → 0 < rules.ambiguity_margin
    → Leads rules (eligible cs) session
    → (select rules cs).winner ≡ some session
unfolding select
Leads-owned rules cs session pos (front, c, back, e, same, high, far) =
    let first : sort_by_total (eligible cs) ≡ c ∷ sort_by_total (front ++ back) =
      ap sort_by_total e
      ∙ sort_by_total-leader front c back (All-map (λ d h. omega arith) (front ++ back) far) in
    let won =
      wins_top rules c (sort_by_total (front ++ back)) high
        (All-is_clear rules c (front ++ back) far) in
    ap (λ l. winner_of (verdict_of rules l) l) first
    ∙ ap (λ v. winner_of v (c ∷ sort_by_total (front ++ back))) won
    ∙ ap some same

-- With a positive margin, `resolve` names a session as the owner exactly if one candidate that is
-- not rejected has that session, reaches the threshold, and leads each of the other candidates that
-- are not rejected by the margin.
pub resolve-Leads_iff :
    (rules : ResolverRules) (inputs : List CandidateInput) (session : RuntimeSessionId)
    → 0 < rules.ambiguity_margin
    → ((resolve rules inputs).winner ≡ some session)
      ↔ Leads rules (eligible (candidates_of rules inputs)) session
unfolding resolve
resolve-Leads_iff rules inputs session pos = (
  owned-Leads rules (candidates_of rules inputs) session,
  Leads-owned rules (candidates_of rules inputs) session pos,
)

verdict_of-winner :
    (rules : ResolverRules) (sorted : List AttributionCandidate)
    → (verdict_of rules sorted ≡ owned) ↔ (winner_of (verdict_of rules sorted) sorted ≢ none)
unfolding verdict_of
verdict_of-winner rules [] = ((λ h. absurd (cc)), (λ h. absurd (h refl)))
verdict_of-winner rules (top ∷ rest) = (λ h n. ground (arith, h, n), λ h. ground (arith, h))

below_threshold :
    (rules : ResolverRules) (cs : List AttributionCandidate)
    → (verdict_of rules (sort_by_total cs) ≡ unknown)
      ↔ All (λ c. c.total < rules.ownership_threshold) cs
unfolding verdict_of
below_threshold rules cs = elim (sort_by_total-Top cs) [
  | inl (e, o) ↦ ((λ _. rw e tt), (λ _. rw (o, verdict_of) refl))
  | inr (front, c, back, e, o, high, low) ↦ (
    (λ h.
        let less : c.total < rules.ownership_threshold =
          low_top rules c (sort_by_total (front ++ back))
            (subst (λ l. verdict_of rules l ≡ unknown) o h) in
        rw e (
          All-append (λ d. d.total < rules.ownership_threshold) front (c ∷ back)
            (All-map (λ d k. omega arith) front high)
            (less, All-map (λ d k. omega arith) back low))),
    (λ h.
        let less =
          (All-append_right (λ d. d.total < rules.ownership_threshold) front (c ∷ back)
            (rw e at h)).0 in
        rw (o, verdict_of) (ground arith)),
  )
]

-- The verdict is `unknown` exactly if every candidate that is not rejected stays below the
-- threshold, `owned` exactly if there is a winner, and `ambiguous` otherwise.
resolve-verdict :
    (rules : ResolverRules) (inputs : List CandidateInput)
    → let decision = resolve rules inputs in
      let cs = eligible (candidates_of rules inputs) in
      ((decision.verdict ≡ unknown) ↔ All (λ c. c.total < rules.ownership_threshold) cs)
      × ((decision.verdict ≡ owned) ↔ (decision.winner ≢ none))
unfolding resolve select
resolve-verdict rules inputs = (
  below_threshold rules (eligible (candidates_of rules inputs)),
  verdict_of-winner rules (sort_by_total (eligible (candidates_of rules inputs))),
)
