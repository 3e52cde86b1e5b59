-- ===== src/Collection.antt =====
-- src/collect.rs: what one scan of the machine records in the store, and what the store then says of
-- the live items.
--
-- The processes and the items of a scan, the boot and the time are arguments. A store that cannot be
-- opened, and a query that fails, are left out; a decision is kept with its candidates and their
-- evidence, which have tables of their own.
pub mod Attribution
pub mod Scan
pub mod Decision
pub mod Marks
mod Examples
use mathlib.Core.Option
use wyd.Common.{
  ℕ, suc, ◌-◌, ◌*◌, ◌++◌, Bool, true, false, not, ◌&&◌, ◌||◌, Option, none, some, List, [], ◌∷◌,
  ltb, ◌==◌, if◌then◌else◌, map, is_some, unwrap_or, min, any, saturating_add_u8,
}
use wyd.Run.{Bytes}
use wyd.Identity.{ProcessIdentity, from_process, resource_id}
use wyd.Runtime.{
  Category, agent, mcp, browser, language_server, RuntimeState, persistent, suspicious,
  SuspicionReason, session_owner_ended, Suspicion, Project, Head, RuntimeItem, item, Children,
  no_more, child, ProcessInfo,
}
use wyd.Store.{bytes_eq}
use wyd.Ownership.{members_of, is_agent, root_of, derive_ownership}
use wyd.Resolver.{AttributionDecision, CandidateInput, persisted_previous, resolver_version, v1}
use wyd.Resolver.Selection.{resolve}
use wyd.Provenance.{Tables, apply_ownership, end_absent_sessions}
use wyd.Provenance.Lookup.{
  Explanation, Explained, explained, unexplained, missing_session, explain_process,
}
use wyd.Provenance.Gc.{gc}

-- The map from pids: the last process that has an identity.
unfoldable pub identities : ℕ → List ProcessInfo → ℕ → Option ProcessIdentity
identities boot [] pid = none
identities boot (p ∷ ps) pid =
    let later = identities boot ps pid in
    elim later [
      | none ↦ if p.pid == pid then from_process boot p.pid p.start_time else none
      | some id ↦ some id
    ]

-- The values of that map.
unfoldable pub live_of : ℕ → List ProcessInfo → List ProcessIdentity
live_of boot processes = members_of (identities boot processes) (map (λ p. p.pid) processes)

-- 30 days.
abbrev pub retention_secs : ℕ
retention_secs = 30 * 24 * 3600

-- A row of `attribution_decisions`, the rows in the order of their ids.
pub record DecisionRow : Type 0 where
  pub resource : ℕ
  pub observed_at : ℕ
  pub decision : AttributionDecision

-- `persist_decision`.
unfoldable pub persist_decision : ℕ → AttributionDecision → ℕ → List DecisionRow → List DecisionRow
persist_decision resource decision now rows =
    rows ++ record { resource = resource; observed_at = now; decision = decision } ∷ []

abbrev pub later_of : ℕ → DecisionRow → Option DecisionRow → Option DecisionRow
later_of resource r none = if r.resource == resource then some r else none
later_of resource r (some q) =
    if r.resource == resource && ltb q.observed_at r.observed_at then some r else some q

-- `latest_decision`: of the rows with the latest time, the one with the greatest id.
unfoldable pub latest_decision : ℕ → List DecisionRow → Option DecisionRow
latest_decision resource [] = none
latest_decision resource (r ∷ rows) = later_of resource r (latest_decision resource rows)

-- What a pass reads: how `query_row` picks, the provenance, the identities and the time; and the
-- resources whose decision cannot be written.
pub record Pass : Type 0 where
  pub pick : List ℕ → Option ℕ
  pub tables : Tables
  pub identities : ℕ → Option ProcessIdentity
  pub now : ℕ
  pub undecided : ℕ → Bool

-- The pids of an item and its root's.
abbrev pub pids_of : Head → List ℕ
pids_of h = elim h.root_pid [ none ↦ h.process_ids | some pid ↦ h.process_ids ++ pid ∷ [] ]

abbrev pub explanation : Explained → Option Explanation
explanation (explained e) = some e
explanation unexplained = none
explanation missing_session = none

unfoldable pub explain_pid : Pass → ℕ → Option Explanation
explain_pid env pid = elim (env.identities pid) [
  | none ↦ none
  | some id ↦ explanation (explain_process env.pick env.tables id)
]

-- The loop that stops at the first process with recorded provenance.
unfoldable pub first_explained : Pass → List ℕ → Option Explanation
first_explained env [] = none
first_explained env (pid ∷ pids) =
    let rest = first_explained env pids in
    elim (explain_pid env pid) [ none ↦ rest | some e ↦ some e ]

abbrev pub same_project : Option Bytes → Option Bytes → Bool
same_project none _ = false
same_project (some a) none = false
same_project (some a) (some b) = bytes_eq a b

abbrev pub knows_tools : Category → Bool
knows_tools mcp = true
knows_tools browser = true
knows_tools language_server = true
knows_tools _ = false

unfoldable pub candidate_of : Head → ProcessIdentity → Explanation → CandidateInput
candidate_of h root e =
    let predates = ltb root.start_time e.session.started_at in
    record {
      session = e.owner;
      anchor = some persisted_previous;
      anchor_score = some 75;
      propagate_cap = none;
      exact_cwd = same_project (Option.map (λ (p : Project). p.root) h.project) e.session.project;
      same_git_root = false;
      start_delta_secs = if predates then none else some (root.start_time - e.session.started_at);
      tool_relationship = knows_tools h.category;
      predates_session = predates;
      reaches_other_agent = false;
    }

-- Whether the latest decision is one of these rules.
abbrev pub is_decided : Option DecisionRow → Bool
is_decided none = false
is_decided (some r) = r.decision.resolver_version == resolver_version

abbrev pub attribute_to :
    Head → ProcessIdentity → ℕ → Option Explanation → List DecisionRow → List DecisionRow
attribute_to h root now none rows = rows
attribute_to h root now (some e) rows =
    persist_decision (resource_id root) (resolve v1 (candidate_of h root e ∷ [])) now rows

-- `attribution_for` for the item itself.
abbrev pub attribute_root :
    Pass → Head → Option ProcessIdentity → List DecisionRow → List DecisionRow
attribute_root env h none rows = rows
attribute_root env h (some root) rows =
    if is_decided (latest_decision (resource_id root) rows)
    then rows
    else if env.undecided (resource_id root)
    then rows
    else attribute_to h root env.now (first_explained env (pids_of h)) rows

unfoldable pub attribute : Pass → Head → List DecisionRow → List DecisionRow
attribute env h rows =
    if is_agent h.category then rows else attribute_root env h (root_of env.identities h) rows

unfoldable mutual
  pub attribution_for : Pass → RuntimeItem → List DecisionRow → List DecisionRow
  attribution_for env (item h children) rows =
      attribute env h (attribution_for_all env children rows)

  pub attribution_for_all : Pass → Children → List DecisionRow → List DecisionRow
  attribution_for_all env no_more rows = rows
  attribution_for_all env (child i rest) rows =
      attribution_for_all env rest (attribution_for env i rows)

-- What a tracker keeps: the tables of the store, and whether garbage is still to be collected.
pub record Tracker : Type 0 where
  pub tables : Tables
  pub decisions : List DecisionRow
  pub gc_pending : Bool

-- `OwnershipTracker::new`, over what the store has.
abbrev pub open_tracker : Tables → List DecisionRow → Tracker
open_tracker tables decisions = record { tables = tables; decisions = decisions; gc_pending = true }

-- Which writes of a scan fail: each is a transaction, which a failure rolls back, and the code goes on.
-- `decides` is about the decision for a resource.
pub record Failures : Type 0 where
  pub applies : Bool
  pub ends : Bool
  pub decides : ℕ → Bool
  pub collects : Bool

-- `OwnershipTracker::record`.
unfoldable pub record_scan :
    (List ℕ → Option ℕ) → Failures → ℕ → List ProcessInfo → Children → ℕ → Tracker → Tracker
record_scan pick fails boot processes items now t =
    let ids = identities boot processes in
    let live = live_of boot processes in
    let applied =
      if fails.applies
      then t.tables
      else unwrap_or (apply_ownership (derive_ownership items ids now) now t.tables) t.tables in
    let ended = if fails.ends then applied else end_absent_sessions live now applied in
    let env : Pass = record {
      pick = pick;
      tables = ended;
      identities = ids;
      now = now;
      undecided = fails.decides;
    } in
    record {
      tables =
          if t.gc_pending && not fails.collects then gc retention_secs now live ended else ended;
      decisions = attribution_for_all env items t.decisions;
      gc_pending = false;
    }

abbrev pub is_owner_ended : SuspicionReason → Bool
is_owner_ended session_owner_ended = true
is_owner_ended _ = false

abbrev pub add_owner_ended : Option Suspicion → Suspicion
add_owner_ended none = record { score = 30; reasons = session_owner_ended ∷ [] }
add_owner_ended (some s) = if any is_owner_ended s.reasons then s else record {
  score = min (saturating_add_u8 s.score 30) 100;
  reasons = s.reasons ++ session_owner_ended ∷ [];
}

abbrev pub has_ended : Option Explanation → Bool
has_ended none = false
has_ended (some e) = is_some e.session.ended_at

abbrev pub is_persistent : RuntimeState → Bool
is_persistent persistent = true
is_persistent _ = false

-- Whether a process of the item comes from a session that has ended.
unfoldable pub origin_ended : Pass → Head → Bool
origin_ended env h = any (λ pid. has_ended (explain_pid env pid)) (pids_of h)

-- `session_leftover_one` for the item itself.
unfoldable pub session_leftover_head : Pass → Head → Head
session_leftover_head env h =
    if is_agent h.category || is_persistent h.state
    then h
    else if not (origin_ended env h)
    then h
    else record h { state = suspicious; suspicion = some (add_owner_ended h.suspicion) }

unfoldable mutual
  pub session_leftover_one : Pass → RuntimeItem → RuntimeItem
  session_leftover_one env (item h children) =
      item (session_leftover_head env h) (session_leftovers env children)

  -- `apply_session_leftovers`, and the loop over the children.
  pub session_leftovers : Pass → Children → Children
  session_leftovers env no_more = no_more
  session_leftovers env (child i rest) =
      child (session_leftover_one env i) (session_leftovers env rest)
