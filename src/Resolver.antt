-- ===== src/Resolver.antt =====
-- src/classify/ownership/resolver.rs and rules.rs: which session owns a resource, by scored evidence.
--
-- A score is a `u8` whose sums saturate; a session id is its 64 bits. The texts of `Evidence.value`
-- are given by their case, with the number that the text names.
pub mod Scores
pub mod Sorting
pub mod Ownership
pub mod Safety
pub mod Rejected
pub mod Selection
mod Examples
use wyd.Common.{
  ℕ, ◌-◌, ◌*◌, Bool, true, false, not, ◌||◌, Option, none, some, unwrap_or, is_some, List, [], ◌∷◌,
  ◌++◌, ltb, leb, if◌then◌else◌, min, retain, saturating_add_u8,
}

abbrev pub RuntimeSessionId : Type 0
RuntimeSessionId = ℕ

abbrev pub resolver_version : ℕ
resolver_version = 1

pub record ResolverRules : Type 0 where
  pub descendant_anchor : ℕ
  pub direct_parent_anchor : ℕ
  pub explicit_anchor : ℕ
  pub exact_cwd : ℕ
  pub same_git_root : ℕ
  pub project_cap : ℕ
  pub temporal_10s : ℕ
  pub temporal_60s : ℕ
  pub temporal_5m : ℕ
  pub temporal_cap : ℕ
  pub relationship_support : ℕ
  pub relationship_cap : ℕ
  pub ownership_threshold : ℕ
  pub ambiguity_margin : ℕ

abbrev pub v1 : ResolverRules
v1 = record {
  descendant_anchor = 75;
  direct_parent_anchor = 85;
  explicit_anchor = 100;
  exact_cwd = 10;
  same_git_root = 8;
  project_cap = 10;
  temporal_10s = 5;
  temporal_60s = 3;
  temporal_5m = 1;
  temporal_cap = 5;
  relationship_support = 5;
  relationship_cap = 5;
  ownership_threshold = 75;
  ambiguity_margin = 15;
}

pub data AnchorKind : Type 0 where
  explicit direct_child descendant persisted_previous propagated : AnchorKind

pub data Rejection : Type 0 where
  predates_session reaches_other_agent : Rejection

pub record CandidateInput : Type 0 where
  pub session : RuntimeSessionId
  pub anchor : Option AnchorKind
  pub anchor_score : Option ℕ
  pub propagate_cap : Option ℕ
  pub exact_cwd : Bool
  pub same_git_root : Bool
  pub start_delta_secs : Option ℕ
  pub tool_relationship : Bool
  pub predates_session : Bool
  pub reaches_other_agent : Bool

pub data EvidenceKind : Type 0 where
  persisted_ownership cwd_match git_root start_time_correlation : EvidenceKind
  tool_relationship predates_session reaches_other_agent : EvidenceKind

pub data EvidenceValue : Type 0 where
  previous_observation exact shared known_chain resource_first other_session : EvidenceValue
  after_session_start : ℕ → EvidenceValue

pub record Evidence : Type 0 where
  pub kind : EvidenceKind
  pub value : EvidenceValue

pub record AttributionCandidate : Type 0 where
  pub session : RuntimeSessionId
  pub anchor : AnchorKind
  pub anchor_score : ℕ
  pub project_support : ℕ
  pub temporal_support : ℕ
  pub relationship_support : ℕ
  pub total : ℕ
  pub rejected : Option Rejection
  pub evidence : List Evidence

pub data Verdict : Type 0 where
  owned ambiguous unknown : Verdict

pub record AttributionDecision : Type 0 where
  pub resolver_version : ℕ
  pub verdict : Verdict
  pub winner : Option RuntimeSessionId
  pub candidates : List AttributionCandidate

unfoldable pub anchor_points : ResolverRules → AnchorKind → Option ℕ → ℕ
anchor_points rules explicit score = rules.explicit_anchor
anchor_points rules direct_child score = rules.direct_parent_anchor
anchor_points rules descendant score = rules.descendant_anchor
anchor_points rules persisted_previous score = unwrap_or score rules.descendant_anchor
anchor_points rules propagated score = unwrap_or score rules.descendant_anchor

unfoldable pub rejection : CandidateInput → Option Rejection
rejection input =
    if input.predates_session
    then some predates_session
    else if input.reaches_other_agent
    then some reaches_other_agent
    else none

unfoldable pub project_support : ResolverRules → CandidateInput → ℕ
project_support rules input =
    min
      (if input.exact_cwd
        then rules.exact_cwd
        else if input.same_git_root
        then rules.same_git_root
        else 0)
      rules.project_cap

unfoldable pub temporal_support : ResolverRules → Option ℕ → ℕ
temporal_support rules none = 0
temporal_support rules (some d) =
    min
      (if leb d 10
        then rules.temporal_10s
        else if leb d 60
        then rules.temporal_60s
        else if leb d (5 * 60)
        then rules.temporal_5m
        else 0)
      rules.temporal_cap

unfoldable pub relationship_points : ResolverRules → CandidateInput → ℕ
relationship_points rules input =
    min (if input.tool_relationship then rules.relationship_support else 0) rules.relationship_cap

abbrev pub capped : Option ℕ → ℕ → ℕ
capped none total = total
capped (some cap) total = min total cap

-- The sum of the families, saturating, at most 100 and at most what was propagated.
unfoldable pub total_points : ResolverRules → CandidateInput → AnchorKind → ℕ
total_points rules input anchor = capped input.propagate_cap (
    min
      (saturating_add_u8
        (saturating_add_u8
          (saturating_add_u8 (anchor_points rules anchor input.anchor_score)
            (project_support rules input))
          (temporal_support rules input.start_delta_secs))
        (relationship_points rules input))
      100)

abbrev pub push_if : Bool → EvidenceKind → EvidenceValue → List Evidence
push_if true kind value = record { kind = kind; value = value } ∷ []
push_if false kind value = []

abbrev pub is_persisted : AnchorKind → Bool
is_persisted persisted_previous = true
is_persisted _ = false

abbrev pub correlation : Option ℕ → List Evidence
correlation none = []
correlation (some d) = record { kind = start_time_correlation; value = after_session_start d } ∷ []

unfoldable pub evidence_for : CandidateInput → AnchorKind → List Evidence
evidence_for input anchor =
    push_if (is_persisted anchor) persisted_ownership previous_observation
    ++ (push_if input.exact_cwd cwd_match exact
        ++ (push_if input.same_git_root git_root shared
            ++ (correlation input.start_delta_secs
                ++ (push_if input.tool_relationship tool_relationship known_chain
                    ++ (push_if input.predates_session predates_session resource_first
                        ++ push_if input.reaches_other_agent reaches_other_agent other_session)))))

-- The body of the loop of `resolve` after the anchor is known.
unfoldable pub candidate : ResolverRules → CandidateInput → AnchorKind → AttributionCandidate
candidate rules input anchor = record {
  session = input.session;
  anchor = anchor;
  anchor_score = anchor_points rules anchor input.anchor_score;
  project_support = project_support rules input;
  temporal_support = temporal_support rules input.start_delta_secs;
  relationship_support = relationship_points rules input;
  total = total_points rules input anchor;
  rejected = rejection input;
  evidence = evidence_for input anchor;
}

abbrev pub push_candidate :
    ResolverRules
    → CandidateInput
    → Option AnchorKind
    → List AttributionCandidate
    → List AttributionCandidate
push_candidate rules input none rest = rest
push_candidate rules input (some anchor) rest = candidate rules input anchor ∷ rest

-- The loop of `resolve`; an input with no anchor is skipped.
unfoldable pub candidates_of : ResolverRules → List CandidateInput → List AttributionCandidate
candidates_of rules [] = []
candidates_of rules (input ∷ inputs) =
    push_candidate rules input input.anchor (candidates_of rules inputs)

abbrev pub is_eligible : AttributionCandidate → Bool
is_eligible c = not (is_some c.rejected)
