-- ===== src/Provenance.antt =====
-- The provenance tables of src/store.rs: sessions, resources, the members of resources, which session
-- owns which resource, and the aliases that vendors give to sessions.
--
-- Each table is a list of rows in the order of insertion; a statement that fails inside a transaction
-- rolls it back, which is `none`. The three columns of a process identity are one field, a session id
-- and a time are their numbers, below 2 ^ 63 for a time. The column `stopped_at` is never written.
-- Where a query takes one row of several, which one it is up to SQLite, and an argument `pick`.
pub mod Lookup
pub mod Gc
mod Keeps
pub mod Integrity
pub mod Collected
pub mod Deletes
pub mod History
pub mod Explain
pub mod Applied
pub mod Recorded
mod Examples
use mathlib.Core.Option
use wyd.Common.{
  ℕ, ◌-◌, ◌++◌, Bool, true, false, not, ◌&&◌, ◌||◌, Option, none, some, List, [], ◌∷◌, ltb, ◌==◌,
  if◌then◌else◌, map, retain, find?, any, update_where, upsert,
}
use wyd.Run.{Bytes}
use wyd.Identity.{ProcessIdentity, session_id}
use wyd.Runtime.{Category, Project}
use wyd.Store.{bytes_eq}
use wyd.Ownership.{RuntimeSession, OwnedResource, OwnershipResult}

pub record SessionRow : Type 0 where
  pub id : ℕ
  pub agent : Bytes
  pub root : ProcessIdentity
  pub project : Option Bytes
  pub started_at : ℕ
  pub last_seen_at : ℕ
  pub ended_at : Option ℕ

pub record ResourceRow : Type 0 where
  pub id : ℕ
  pub kind : Category
  pub root : ProcessIdentity
  pub first_seen_at : ℕ
  pub last_seen_at : ℕ

pub record MemberRow : Type 0 where
  pub resource : ℕ
  pub process : ProcessIdentity

pub record OwnershipRow : Type 0 where
  pub resource : ℕ
  pub session : ℕ

pub record AliasRow : Type 0 where
  pub vendor : Bytes
  pub vendor_session_id : Bytes
  pub session : ℕ
  pub vendor_started_at : Option ℕ
  pub vendor_ended_at : Option ℕ

pub record Tables : Type 0 where
  pub sessions : List SessionRow
  pub resources : List ResourceRow
  pub members : List MemberRow
  pub ownership : List OwnershipRow
  pub aliases : List AliasRow

abbrev pub no_tables : Tables
no_tables = record { sessions = []; resources = []; members = []; ownership = []; aliases = [] }

abbrev pub same_process : ProcessIdentity → ProcessIdentity → Bool
same_process a b = a.boot_id == b.boot_id && a.pid == b.pid && a.start_time == b.start_time

-- `live.contains`.
abbrev pub is_live : List ProcessIdentity → ProcessIdentity → Bool
is_live live p = any (same_process p) live

abbrev pub has : List ℕ → ℕ → Bool
has ids id = any (◌==◌ id) ids

-- `COALESCE`.
abbrev pub coalesce {ℓ} : {A : Type ℓ} → Option A → Option A → Option A
coalesce none old = old
coalesce (some a) old = some a

abbrev session_row : RuntimeSession → ℕ → SessionRow
session_row s now = record {
  id = s.id;
  agent = s.agent;
  root = s.root;
  project = Option.map (λ (p : Project). p.root) s.project;
  started_at = s.started_at;
  last_seen_at = now;
  ended_at = s.ended_at;
}

-- The first loop of `apply_ownership`.
unfoldable pub apply_session : RuntimeSession → ℕ → Tables → Tables
apply_session s now t =
    let update = λ (r : SessionRow). record r {
      last_seen_at = now;
      ended_at = s.ended_at;
      project = coalesce (Option.map (λ (p : Project). p.root) s.project) r.project;
    } in
    record t { sessions = upsert (λ r. r.id == s.id) update (session_row s now) t.sessions }

unfoldable pub apply_sessions : List RuntimeSession → ℕ → Tables → Tables
apply_sessions [] now t = t
apply_sessions (s ∷ ss) now t = apply_sessions ss now (apply_session s now t)

-- A second row with the same primary key fails.
unfoldable pub insert_members : ℕ → List ProcessIdentity → List MemberRow → Option (List MemberRow)
insert_members rid [] rows = some rows
insert_members rid (p ∷ ps) rows =
    if any (λ m. m.resource == rid && same_process m.process p) rows
    then none
    else insert_members rid ps (rows ++ record { resource = rid; process = p } ∷ [])

-- The second loop, before the members are inserted and after.
unfoldable pub apply_resource : OwnedResource → ℕ → List ResourceRow → List ResourceRow
apply_resource o now rows =
    let row : ResourceRow = record {
      id = o.resource;
      kind = o.kind;
      root = o.root;
      first_seen_at = now;
      last_seen_at = now;
    } in
    upsert (λ r. r.id == o.resource) (λ r. record r { last_seen_at = now }) row rows

unfoldable pub apply_edge : OwnedResource → List OwnershipRow → List OwnershipRow
apply_edge o rows =
    upsert (λ e. e.resource == o.resource) (λ e. record e { session = o.session })
      (record { resource = o.resource; session = o.session }) rows

abbrev pub with_members : OwnedResource → ℕ → Tables → Option (List MemberRow) → Option Tables
with_members o now t none = none
with_members o now t (some members) = some (record t {
  resources = apply_resource o now t.resources;
  members = members;
  ownership = apply_edge o t.ownership;
})

unfoldable pub apply_owned : OwnedResource → ℕ → Tables → Option Tables
apply_owned o now t =
    let rest = retain (λ (m : MemberRow). not (m.resource == o.resource)) t.members in
    with_members o now t (insert_members o.resource o.members rest)

unfoldable pub apply_all_owned : List OwnedResource → ℕ → Tables → Option Tables
apply_all_owned [] now t = some t
apply_all_owned (o ∷ os) now t = elim (apply_owned o now t) [
  | none ↦ none
  | some t₁ ↦ apply_all_owned os now t₁
]

unfoldable pub apply_ownership : OwnershipResult → ℕ → Tables → Option Tables
apply_ownership result now t =
    apply_all_owned result.owned now (apply_sessions result.sessions now t)

abbrev is_active : SessionRow → Bool
is_active r = elim r.ended_at [ none ↦ true | some at ↦ false ]

-- The update goes by the primary key, so it is the one of the rows that the query selects.
unfoldable pub end_absent_sessions : List ProcessIdentity → ℕ → Tables → Tables
end_absent_sessions live now t = record t {
  sessions =
      update_where (λ r. is_active r && not (is_live live r.root))
        (λ r. record r { ended_at = some now }) t.sessions;
}

-- `ensure_session`: the id, and the tables after INSERT OR IGNORE.
unfoldable pub ensure_session : Bytes → ProcessIdentity → ℕ → Tables → ℕ × Tables
ensure_session agent root now t =
    let id = session_id root agent in
    let row : SessionRow = record {
      id = id;
      agent = agent;
      root = root;
      project = none;
      started_at = root.start_time;
      last_seen_at = now;
      ended_at = none;
    } in
    (id, record t { sessions = upsert (λ r. r.id == id) (λ r. r) row t.sessions })

abbrev pub is_alias : Bytes → Bytes → AliasRow → Bool
is_alias vendor vendor_session_id a =
    bytes_eq a.vendor vendor && bytes_eq a.vendor_session_id vendor_session_id

-- INSERT OR REPLACE: the row with the key goes, and the new one comes.
unfoldable pub register_alias : ℕ → Bytes → Bytes → ℕ → Tables → Tables
register_alias session vendor vendor_session_id now t =
    let row : AliasRow = record {
      vendor = vendor;
      vendor_session_id = vendor_session_id;
      session = session;
      vendor_started_at = some now;
      vendor_ended_at = none;
    } in
    record t {
      aliases = retain (λ a. not (is_alias vendor vendor_session_id a)) t.aliases ++ row ∷ [];
    }

unfoldable pub end_vendor_alias : Bytes → Bytes → ℕ → Tables → Tables
end_vendor_alias vendor vendor_session_id now t = record t {
  aliases =
      update_where (is_alias vendor vendor_session_id)
        (λ a. record a { vendor_ended_at = some now }) t.aliases;
}

-- `session_start` of src/server.rs once it has found the process, and `session_end`.
unfoldable pub session_start : Bytes → ProcessIdentity → Bytes → Bytes → ℕ → Tables → Tables
session_start agent root vendor vendor_session_id now t =
    let (id, t₁) = ensure_session agent root now t in
    register_alias id vendor vendor_session_id now t₁

unfoldable pub session_id_for_alias : Bytes → Bytes → Tables → Option ℕ
session_id_for_alias vendor vendor_session_id t =
    Option.map (λ (a : AliasRow). a.session) (find? (is_alias vendor vendor_session_id) t.aliases)

unfoldable pub session_end : Bytes → Bytes → ℕ → Tables → Option ℕ × Tables
session_end vendor vendor_session_id now t =
    elim (session_id_for_alias vendor vendor_session_id t) [
      | none ↦ (none, t)
      | some session ↦ (some session, end_vendor_alias vendor vendor_session_id now t)
    ]
