-- ===== src/Resolver/Rejected.antt =====
-- Inputs that cannot own, in src/classify/ownership/resolver.rs: they are reported, and change nothing.
use wyd.Common.{◌≡◌, refl, ap, ◌∙◌, sym, List, [], ◌∷◌, ◌++◌, retain-append, Option-cases, inl, inr}
use wyd.Resolver.{
  CandidateInput, AttributionCandidate, ResolverRules, is_eligible, push_candidate, candidates_of,
}
use wyd.Resolver.Selection.{sort_by_total, verdict_of, winner_of, select, resolve}
use wyd.Resolver.Ownership.{eligible}
use wyd.Resolver.Safety.{CannotOwn, eligible-skip}

push_candidate-append :
    (rules : ResolverRules) (input : CandidateInput) (xs ys : List AttributionCandidate)
    → push_candidate rules input input.anchor (xs ++ ys)
      ≡ push_candidate rules input input.anchor xs ++ ys
push_candidate-append rules input xs ys = elim (Option-cases input.anchor) [
  | inl e ↦ simp e
  | inr (a, e) ↦ simp e
]

candidates_of-append :
    (rules : ResolverRules) (xs ys : List CandidateInput)
    → candidates_of rules (xs ++ ys) ≡ candidates_of rules xs ++ candidates_of rules ys
unfolding candidates_of
candidates_of-append rules [] ys = refl
candidates_of-append rules (x ∷ xs) ys =
    ap (push_candidate rules x x.anchor) (candidates_of-append rules xs ys)
    ∙ push_candidate-append rules x (candidates_of rules xs) (candidates_of rules ys)

eligible-insert :
    (rules : ResolverRules) (xs ys : List CandidateInput) (input : CandidateInput)
    → CannotOwn input
    → eligible (candidates_of rules (xs ++ input ∷ ys)) ≡ eligible (candidates_of rules (xs ++ ys))
eligible-insert rules xs ys input h =
    rw (candidates_of-append rules xs (input ∷ ys), candidates_of-append rules xs ys)
      (retain-append is_eligible (candidates_of rules xs) (candidates_of rules (input ∷ ys))
        ∙ ap (λ l. eligible (candidates_of rules xs) ++ l) (eligible-skip rules input ys h)
        ∙ sym (retain-append is_eligible (candidates_of rules xs) (candidates_of rules ys)))

-- An input with no anchor, or with a contradiction, changes neither the verdict nor the winner,
-- wherever it stands among the inputs: it rejects itself and takes no points from the others.
resolve_ignores :
    (rules : ResolverRules) (xs ys : List CandidateInput) (input : CandidateInput)
    → CannotOwn input
    → let with_it = resolve rules (xs ++ input ∷ ys) in
      let without = resolve rules (xs ++ ys) in
      (with_it.verdict ≡ without.verdict) × (with_it.winner ≡ without.winner)
unfolding resolve select
resolve_ignores rules xs ys input h =
    let same = eligible-insert rules xs ys input h in
    (
      ap (λ l. verdict_of rules (sort_by_total l)) same,
      ap (λ l. winner_of (verdict_of rules (sort_by_total l)) (sort_by_total l)) same,
    )
