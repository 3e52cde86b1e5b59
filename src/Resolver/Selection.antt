-- ===== src/Resolver/Selection.antt =====
-- The second half of src/classify/ownership/resolver.rs: the candidates in order, and the decision.
use wyd.Common.{◌-◌, Bool, true, Option, none, some, List, [], ◌∷◌, ltb, leb, if◌then◌else◌, retain}
use wyd.Resolver.{
  RuntimeSessionId, resolver_version, ResolverRules, CandidateInput, AttributionCandidate, Verdict,
  AttributionDecision, candidates_of, is_eligible, owned, ambiguous, unknown,
}

-- `sort_by_key(Reverse(total))`, which is stable: an insertion sort.
unfoldable pub insert_by_total :
    AttributionCandidate → List AttributionCandidate → List AttributionCandidate
insert_by_total c [] = c ∷ []
insert_by_total c (d ∷ ds) =
    let rest = insert_by_total c ds in if leb d.total c.total then c ∷ d ∷ ds else d ∷ rest

unfoldable pub sort_by_total : List AttributionCandidate → List AttributionCandidate
sort_by_total [] = []
sort_by_total (c ∷ cs) = insert_by_total c (sort_by_total cs)

-- `eligible.len() == 1`, or the second is far enough behind.
unfoldable pub is_clear : ResolverRules → AttributionCandidate → List AttributionCandidate → Bool
is_clear rules top [] = true
is_clear rules top (second ∷ _) = leb rules.ambiguity_margin (top.total - second.total)

unfoldable pub verdict_of : ResolverRules → List AttributionCandidate → Verdict
unfolding is_clear
verdict_of rules [] = unknown
verdict_of rules (top ∷ rest) =
    if ltb top.total rules.ownership_threshold
    then unknown
    else if is_clear rules top rest
    then owned
    else ambiguous

abbrev pub first_session : List AttributionCandidate → Option RuntimeSessionId
first_session [] = none
first_session (c ∷ _) = some c.session

abbrev pub winner_of : Verdict → List AttributionCandidate → Option RuntimeSessionId
winner_of owned eligible = first_session eligible
winner_of _ eligible = none

unfoldable pub select : ResolverRules → List AttributionCandidate → AttributionDecision
select rules candidates =
    let eligible = sort_by_total (retain is_eligible candidates) in
    let verdict = verdict_of rules eligible in
    record {
      resolver_version = resolver_version;
      verdict = verdict;
      winner = winner_of verdict eligible;
      candidates = candidates;
    }

unfoldable pub resolve : ResolverRules → List CandidateInput → AttributionDecision
resolve rules inputs = select rules (candidates_of rules inputs)
