-- ===== src/Provenance/Lookup.antt =====
-- The queries of src/store.rs over the provenance tables: which session owns a process.
--
-- The result of a query with several rows is the list of them, in some order and with repetitions;
-- `query_row` takes one, and which one is up to `pick`.
use mathlib.Core.Option
use wyd.Common.{
  ℕ, ◌≡◌, ◌++◌, ◌⊎◌, Option, none, some, List, [], ◌==◌, if◌then◌else◌, map, true, retain, find?,
  flat_map,
}
use wyd.Run.{Bytes}
use wyd.Identity.{ProcessIdentity}
use wyd.Provenance.{SessionRow, ResourceRow, MemberRow, OwnershipRow, Tables, same_process, has}

pub record SessionRecord : Type 0 where
  pub id : ℕ
  pub agent : Bytes
  pub project : Option Bytes
  pub started_at : ℕ
  pub last_seen_at : ℕ
  pub ended_at : Option ℕ

pub record Explanation : Type 0 where
  pub resource_id : ℕ
  pub owner : ℕ
  pub session : SessionRecord

-- `io::Result<Option<Explanation>>`: the error is of ownership that references a missing session.
pub data Explained : Type 0 where
  explained : Explanation → Explained
  unexplained missing_session : Explained

abbrev pub session_record_of : SessionRow → SessionRecord
session_record_of r = record {
  id = r.id;
  agent = r.agent;
  project = r.project;
  started_at = r.started_at;
  last_seen_at = r.last_seen_at;
  ended_at = r.ended_at;
}

unfoldable pub sessions : Tables → List SessionRecord
sessions t = map session_record_of t.sessions

unfoldable pub session_record : ℕ → Tables → Option SessionRecord
session_record id t = Option.map session_record_of (find? (λ r. r.id == id) t.sessions)

-- The sessions on the rows of `exact_ownership` that join with a resource.
unfoldable pub owners : List OwnershipRow → ℕ → List ℕ
owners ownership resource =
    map (λ e. e.session) (retain (λ (e : OwnershipRow). e.resource == resource) ownership)

abbrev pub member_owners : List OwnershipRow → ProcessIdentity → MemberRow → List ℕ
member_owners ownership p m = if same_process m.process p then owners ownership m.resource else []

abbrev pub root_owners : List OwnershipRow → ProcessIdentity → ResourceRow → List ℕ
root_owners ownership p r = if same_process r.root p then owners ownership r.id else []

-- The rows of the query of `owning_session_for_process`.
unfoldable pub owner_rows : Tables → ProcessIdentity → List ℕ
owner_rows t p =
    flat_map (member_owners t.ownership p) t.members
    ++ flat_map (root_owners t.ownership p) t.resources

-- The rows of the second query of `explain_process`.
unfoldable pub resource_rows : Tables → ProcessIdentity → List ℕ
resource_rows t p =
    map (λ m. m.resource) (retain (λ (m : MemberRow). same_process m.process p) t.members)
    ++ map (λ r. r.id) (retain (λ (r : ResourceRow). same_process r.root p) t.resources)

-- What is relied on of `query_row`: it gives one of the rows, if there is one.
abbrev pub Picks : (List ℕ → Option ℕ) → Type 0
Picks pick =
    (rows : List ℕ)
    → ((rows ≡ []) × (pick rows ≡ none)) ⊎ ((a : ℕ) × (pick rows ≡ some a) × (has rows a ≡ true))

module _ (pick : List ℕ → Option ℕ) where
  unfoldable pub owning_session_for_process : Tables → ProcessIdentity → Option ℕ
  owning_session_for_process t p = pick (owner_rows t p)

  unfoldable pub session_for_root_pid : Tables → ℕ → Option ℕ
  session_for_root_pid t pid = pick (
      flat_map (λ (r : ResourceRow). if r.root.pid == pid then owners t.ownership r.id else [])
        t.resources)

  unfoldable pub session_for_root : Tables → ProcessIdentity → Option SessionRecord
  session_for_root t p =
      elim (pick
        (map (λ r. r.id) (retain (λ (r : SessionRow). same_process r.root p) t.sessions))) [
          | none ↦ none
          | some id ↦ session_record id t
        ]

  abbrev explain : Tables → ℕ → ℕ → Option SessionRecord → Explained
  explain t resource owner none = missing_session
  explain t resource owner (some session) =
      explained (record { resource_id = resource; owner = owner; session = session })

  unfoldable pub explain_process : Tables → ProcessIdentity → Explained
  explain_process t p = elim (owning_session_for_process t p) [
    | none ↦ unexplained
    | some owner ↦ elim (pick (resource_rows t p)) [
      | none ↦ unexplained
      | some resource ↦ explain t resource owner (session_record owner t)
    ]
  ]
