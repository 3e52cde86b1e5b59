-- ===== src/Resolver/Safety.antt =====
-- Who can be named as the owner by src/classify/ownership/resolver.rs.
use wyd.Common.{
  ℕ, ◌≤◌, ◌<◌, ◌≡◌, refl, ap, subst, ◌⊎◌, inl, inr, true, false, none, some, List, [], ◌∷◌, arith,
  Bool-cases, Option-cases, retain, All, All-map, All-append_right,
}
use wyd.Resolver.{
  RuntimeSessionId, CandidateInput, AnchorKind, ResolverRules, is_eligible, rejection, total_points,
  candidate, push_candidate, candidates_of,
}
use wyd.Resolver.Selection.{resolve}
use wyd.Resolver.Ownership.{eligible, resolve-Leads_iff}

-- An input that stands for a candidate with this session and total.
abbrev pub Supports : ResolverRules → RuntimeSessionId → ℕ → CandidateInput → Type 0
Supports rules session total input =
    (anchor : AnchorKind) × (input.anchor ≡ some anchor)
    × (input.session ≡ session)
    × (input.predates_session ≡ false)
    × (input.reaches_other_agent ≡ false)
    × (total_points rules input anchor ≡ total)

-- Some entry of a list.
abbrev pub Any {ℓ} : {A : Type ℓ} → (A → Type 0) → List A → Type 0
Any P [] = ⊥
Any P (x ∷ xs) = P x ⊎ Any P xs

candidates_of-none :
    (rules : ResolverRules) (input : CandidateInput) (inputs : List CandidateInput)
    → input.anchor ≡ none
    → candidates_of rules (input ∷ inputs) ≡ candidates_of rules inputs
unfolding candidates_of
candidates_of-none rules input inputs e =
    ap (λ a. push_candidate rules input a (candidates_of rules inputs)) e

candidates_of-some :
    (rules : ResolverRules) (input : CandidateInput) (inputs : List CandidateInput)
    (anchor : AnchorKind)
    → input.anchor ≡ some anchor
    → candidates_of rules (input ∷ inputs)
      ≡ candidate rules input anchor ∷ candidates_of rules inputs
unfolding candidates_of
candidates_of-some rules input inputs anchor e =
    ap (λ a. push_candidate rules input a (candidates_of rules inputs)) e

candidate-Supports :
    (rules : ResolverRules) (input : CandidateInput) (anchor : AnchorKind)
    → input.anchor ≡ some anchor
    → is_eligible (candidate rules input anchor) ≡ true
    → Supports rules
        (candidate rules input anchor).session
        (candidate rules input anchor).total
        input
unfolding candidate rejection
candidate-Supports rules input anchor e ok = (anchor, e, refl, ground arith, ground arith, refl)

eligible-Supports :
    (rules : ResolverRules) (inputs : List CandidateInput)
    → All
        (λ c. Any (Supports rules c.session c.total) inputs)
        (eligible (candidates_of rules inputs))
unfolding candidates_of retain
eligible-Supports rules [] = tt
eligible-Supports rules (input ∷ inputs) =
    let later : All (λ c. Any (Supports rules c.session c.total) (input ∷ inputs))
        (eligible (candidates_of rules inputs)) =
      All-map (λ c s. inr s) (eligible (candidates_of rules inputs))
        (eligible-Supports rules inputs) in
    elim (Option-cases input.anchor) [
      | inl e ↦ rw (candidates_of-none rules input inputs e) later
      | inr (anchor, e) ↦
          rw (candidates_of-some rules input inputs anchor e)
            (elim (Bool-cases (is_eligible (candidate rules input anchor))) [
              | inl ok ↦ rw ok (inl (candidate-Supports rules input anchor e ok), later)
              | inr out ↦ rw out later
            ])
    ]

-- A session that `resolve` names as the owner was offered with an anchor, does not begin after the
-- resource, reaches no other agent's session, and has a score of at least the threshold. Project
-- and timing alone never make an owner.
pub resolve-Supports :
    (rules : ResolverRules) (inputs : List CandidateInput) (session : RuntimeSessionId)
    → 0 < rules.ambiguity_margin
    → (resolve rules inputs).winner ≡ some session
    → (total : ℕ) × (rules.ownership_threshold ≤ total) × Any (Supports rules session total) inputs
resolve-Supports rules inputs session pos w =
    let (front, c, back, e, same, high, far) = (resolve-Leads_iff rules inputs session pos).0 w in
    let support =
      (All-append_right (λ d. Any (Supports rules d.session d.total) inputs) front (c ∷ back)
        (subst (All (λ d. Any (Supports rules d.session d.total) inputs)) e
          (eligible-Supports rules inputs))).0 in
    (c.total, high, subst (λ n. Any (Supports rules n c.total) inputs) same support)

-- The two forms of an input that cannot own: no anchor, or a contradiction.
abbrev pub CannotOwn : CandidateInput → Type 0
CannotOwn input =
    (input.anchor ≡ none) ⊎ (input.predates_session ≡ true) ⊎ (input.reaches_other_agent ≡ true)

pub eligible-skip :
    (rules : ResolverRules) (input : CandidateInput) (inputs : List CandidateInput)
    → CannotOwn input
    → eligible (candidates_of rules (input ∷ inputs)) ≡ eligible (candidates_of rules inputs)
unfolding retain candidate rejection
eligible-skip rules input inputs h = elim (Option-cases input.anchor) [
  | inl e ↦ ap eligible (candidates_of-none rules input inputs e)
  | inr (anchor, e) ↦ rw (candidates_of-some rules input inputs anchor e) (ground arith)
]
