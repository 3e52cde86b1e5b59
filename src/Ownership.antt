-- ===== src/Ownership.antt =====
-- src/classify/ownership/mod.rs and the sessions of src/model/session.rs: which session each item of
-- the tree provably comes from.
--
-- The map from pids to identities is a function. `OwnershipResult`, which the walk pushes to, is
-- passed to each call and returned by it.
pub mod Nearest
pub mod Owners
mod Examples
use mathlib.Core.Option
use wyd.Common.{ℕ, Bool, true, false, if◌then◌else◌, ◌++◌, Option, none, some, List, [], ◌∷◌, ◌++◌}
use wyd.Run.{Bytes}
use wyd.Identity.{ProcessIdentity, session_id, resource_id}
use wyd.Runtime.{Category, agent, Head, RuntimeItem, item, Children, no_more, child, Project}

pub record RuntimeSession : Type 0 where
  pub id : ℕ
  pub agent : Bytes
  pub root : ProcessIdentity
  pub project : Option Project
  pub started_at : ℕ
  pub last_seen_at : ℕ
  pub ended_at : Option ℕ

-- `RuntimeSession::new`.
unfoldable pub new : Bytes → ProcessIdentity → Option Project → ℕ → RuntimeSession
new name root project now = record {
  id = session_id root name;
  agent = name;
  root = root;
  project = project;
  started_at = root.start_time;
  last_seen_at = now;
  ended_at = none;
}

pub record OwnedResource : Type 0 where
  pub resource : ℕ
  pub kind : Category
  pub root : ProcessIdentity
  pub members : List ProcessIdentity
  pub session : ℕ

pub record OwnershipResult : Type 0 where
  pub sessions : List RuntimeSession
  pub owned : List OwnedResource

abbrev pub is_agent : Category → Bool
is_agent agent = true
is_agent _ = false

abbrev pub push {ℓ} : {A : Type ℓ} → Option A → List A → List A
push none xs = xs
push (some x) xs = x ∷ xs

-- The identities of the pids that have one.
unfoldable pub members_of : (ℕ → Option ProcessIdentity) → List ℕ → List ProcessIdentity
members_of identities [] = []
members_of identities (pid ∷ pids) = push (identities pid) (members_of identities pids)

abbrev pub and_then {ℓ κ} : {A : Type ℓ} {B : Type κ} → (A → Option B) → Option A → Option B
and_then f none = none
and_then f (some a) = f a

abbrev pub root_of : (ℕ → Option ProcessIdentity) → Head → Option ProcessIdentity
root_of identities h = and_then identities h.root_pid

-- The session that an item starts: an agent whose root has an identity does.
unfoldable pub started : (ℕ → Option ProcessIdentity) → ℕ → Head → Option RuntimeSession
started identities now h =
    if is_agent h.category
    then Option.map (λ root. new h.display_name root h.project now) (root_of identities h)
    else none

abbrev pub resource_of : (ℕ → Option ProcessIdentity) → Head → ℕ → ProcessIdentity → OwnedResource
resource_of identities h session root = record {
  resource = resource_id root;
  kind = h.category;
  root = root;
  members = members_of identities h.process_ids;
  session = session;
}

-- `walk` before it comes to the children: the result so far, and the session that encloses them.
abbrev pub visit_owned :
    (ℕ → Option ProcessIdentity)
    → Head
    → Option ℕ
    → Option ProcessIdentity
    → OwnershipResult
    → OwnershipResult
visit_owned identities h (some session) (some root) out = record out {
  owned = out.owned ++ resource_of identities h session root ∷ [];
}
visit_owned identities h _ _ out = out

abbrev pub visit_started :
    (ℕ → Option ProcessIdentity)
    → Head
    → Option ℕ
    → Option RuntimeSession
    → OwnershipResult
    → OwnershipResult × Option ℕ
visit_started identities h outer (some session) out =
    (record out { sessions = out.sessions ++ session ∷ [] }, some session.id)
visit_started identities h outer none out =
    (visit_owned identities h outer (root_of identities h) out, outer)

unfoldable pub visit :
    (ℕ → Option ProcessIdentity)
    → ℕ
    → Head
    → Option ℕ
    → OwnershipResult
    → OwnershipResult × Option ℕ
visit identities now h outer out = visit_started identities h outer (started identities now h) out

unfoldable mutual
  pub walk :
      (ℕ → Option ProcessIdentity) → ℕ → RuntimeItem → Option ℕ → OwnershipResult → OwnershipResult
  walk identities now (item h children) outer out =
      let (out₁, session) = visit identities now h outer out in
      walk_children identities now children session out₁

  pub walk_children :
      (ℕ → Option ProcessIdentity) → ℕ → Children → Option ℕ → OwnershipResult → OwnershipResult
  walk_children identities now no_more session out = out
  walk_children identities now (child i rest) session out =
      walk_children identities now rest session (walk identities now i session out)

-- The loop over the items is the one over an item's children, with no session outside.
unfoldable pub derive_ownership : Children → (ℕ → Option ProcessIdentity) → ℕ → OwnershipResult
derive_ownership items identities now =
    walk_children identities now items none (record { sessions = []; owned = [] })
