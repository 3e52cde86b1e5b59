-- ===== src/Provenance/Integrity.antt =====
-- The references between the provenance tables of src/store.rs: no row points at a row that is not there.
use wyd.Common.{
  ℕ, ◌≡◌, refl, ◌∙◌, sym, subst, inl, inr, true, not, ◌&&◌, List, [], ◌∷◌, ◌==◌, ==_iff, Bool-cases,
  Option-cases, Option, none, some, OnSome, All, All-map, All-append, retain, retain-All, any,
  arith, any-upsert, any-upsert_key, upsert-All, any-update_where, update_where-All,
}
use wyd.Run.{Bytes}
use wyd.Identity.{ProcessIdentity, session_id}
use wyd.Ownership.{RuntimeSession, OwnedResource, OwnershipResult}
use wyd.Ownership.Owners.{IsSession, Owners}
use wyd.Provenance.{
  SessionRow, ResourceRow, MemberRow, OwnershipRow, AliasRow, Tables, same_process, apply_session,
  apply_sessions, insert_members, apply_resource, apply_edge, apply_owned, with_members,
  apply_all_owned, apply_ownership, end_absent_sessions, ensure_session, register_alias,
  end_vendor_alias, session_start, session_end, session_id_for_alias,
}
use wyd.Provenance.Gc.{has_resource, has_session}

abbrev pub MembersKnown : List ResourceRow → List MemberRow → Type 0
MembersKnown rs ms = All (λ m. has_resource rs m.resource ≡ true) ms

abbrev pub EdgesKnown : List ResourceRow → List SessionRow → List OwnershipRow → Type 0
EdgesKnown rs ss es =
    All (λ e. (has_resource rs e.resource ≡ true) × (has_session ss e.session ≡ true)) es

abbrev pub AliasesKnown : List SessionRow → List AliasRow → Type 0
AliasesKnown ss rows = All (λ a. has_session ss a.session ≡ true) rows

-- Members and owned resources have their resource's row, owners and the sessions of aliases theirs.
pub record Integrity (t : Tables) : Type 0 where
  pub members_known : MembersKnown t.resources t.members
  pub edges_known : EdgesKnown t.resources t.sessions t.ownership
  pub aliases_known : AliasesKnown t.sessions t.aliases

abbrev MoreSessions : List SessionRow → List SessionRow → Type 0
MoreSessions ss ss' = (id : ℕ) → has_session ss id ≡ true → has_session ss' id ≡ true

more_sessions :
    (t : Tables) (ss : List SessionRow)
    → MoreSessions t.sessions ss
    → Integrity t
    → Integrity (record t { sessions = ss })
more_sessions t ss more ok = record {
  members_known = ok.members_known;
  edges_known = All-map (λ e k. (k.0, more e.session k.1)) t.ownership ok.edges_known;
  aliases_known = All-map (λ a k. more a.session k) t.aliases ok.aliases_known;
}

apply_sessions-Integrity :
    (ss : List RuntimeSession) (now : ℕ) (t : Tables)
    → Integrity t
    → Integrity (apply_sessions ss now t)
      × ((id : ℕ)
          → has_session t.sessions id ≡ true
          → has_session (apply_sessions ss now t).sessions id ≡ true)
      × ((id : ℕ) → IsSession ss id → has_session (apply_sessions ss now t).sessions id ≡ true)
unfolding apply_sessions apply_session any
apply_sessions-Integrity [] now t ok = (ok, λ id h. h, λ id h. absurd (cc))
apply_sessions-Integrity (s ∷ ss) now t ok =
    let t₁ = apply_session s now t in
    let more : MoreSessions t.sessions t₁.sessions =
      λ id h. any-upsert (λ r. r.id == s.id) (λ r. r.id == id) _ _ t.sessions (λ r. refl) h in
    let (ok', more', found) =
      apply_sessions-Integrity ss now t₁ (more_sessions t t₁.sessions more ok) in
    (
      ok',
      λ id h. more' id (more id h),
      λ id h. elim (Bool-cases (s.id == id)) [
        | inl e ↦ more' id (
            subst (λ i. has_session t₁.sessions i ≡ true) ((==_iff s.id id).0 e)
              (any-upsert_key (λ r. r.id == s.id) _ _ t.sessions (λ r. refl) (grind arith)))
        | inr e ↦ found id (ground arith)
      ],
    )

insert_members-Known :
    (rs : List ResourceRow) (rid : ℕ) (ps : List ProcessIdentity) (ms : List MemberRow)
    → has_resource rs rid ≡ true
    → MembersKnown rs ms
    → OnSome (MembersKnown rs) (insert_members rid ps ms)
unfolding insert_members
insert_members-Known rs rid [] ms h ok = ok
insert_members-Known rs rid (p ∷ ps) ms h ok =
    elim (Bool-cases (any (λ m. m.resource == rid && same_process m.process p) ms)) [
      | inl e ↦ rw e tt
      | inr e ↦ rw e (
          insert_members-Known rs rid ps _ h
            (All-append (λ m. has_resource rs m.resource ≡ true) ms _ ok (h, tt)))
    ]

abbrev OwnersKnown : List SessionRow → List OwnedResource → Type 0
OwnersKnown ss os = All (λ o. has_session ss o.session ≡ true) os

apply_owned-Integrity :
    (o : OwnedResource) (now : ℕ) (t : Tables)
    → Integrity t
    → has_session t.sessions o.session ≡ true
    → OnSome (λ t'. Integrity t' × (t'.sessions ≡ t.sessions)) (apply_owned o now t)
unfolding apply_owned apply_resource apply_edge
apply_owned-Integrity o now t ok h =
    let rs = apply_resource o now t.resources in
    let rest = retain (λ (m : MemberRow). not (m.resource == o.resource)) t.members in
    let more : (id : ℕ) → has_resource t.resources id ≡ true → has_resource rs id ≡ true = λ id k.
      any-upsert (λ r. r.id == o.resource) (λ r. r.id == id) _ _ t.resources (λ r. refl) k in
    let found : has_resource rs o.resource ≡ true =
      any-upsert_key (λ r. r.id == o.resource) _ _ t.resources (λ r. refl) (grind arith) in
    let ms : MembersKnown rs rest =
      retain-All (λ m. has_resource rs m.resource ≡ true) (λ m. not (m.resource == o.resource))
        t.members (All-map (λ m k. more m.resource k) t.members ok.members_known) in
    let es : EdgesKnown rs t.sessions (apply_edge o t.ownership) =
      upsert-All
        (λ e. (has_resource rs e.resource ≡ true) × (has_session t.sessions e.session ≡ true))
        (λ e. e.resource == o.resource) (λ e. record e { session = o.session }) _ t.ownership
        (λ e _ k. (k.0, h)) (found, h)
        (All-map (λ e k. (more e.resource k.0, k.1)) t.ownership ok.edges_known) in
    owned_members (insert_members o.resource o.members rest)
      (insert_members-Known rs o.resource o.members rest found ms) es
  where
    owned_members :
        (found : Option (List MemberRow))
        → OnSome (MembersKnown (apply_resource o now t.resources)) found
        → EdgesKnown (apply_resource o now t.resources) t.sessions (apply_edge o t.ownership)
        → OnSome (λ t'. Integrity t' × (t'.sessions ≡ t.sessions)) (with_members o now t found)
    owned_members none k es = tt
    owned_members (some members) k es =
        (record { members_known = k; edges_known = es; aliases_known = ok.aliases_known }, refl)

apply_all_owned-Integrity :
    (os : List OwnedResource) (now : ℕ) (t : Tables)
    → Integrity t
    → OwnersKnown t.sessions os
    → OnSome Integrity (apply_all_owned os now t)
unfolding apply_all_owned
apply_all_owned-Integrity [] now t ok h = ok
apply_all_owned-Integrity (o ∷ os) now t ok h = elim (Option-cases (apply_owned o now t)) [
  | inl e ↦ rw (e, OnSome, apply_all_owned) tt
  | inr (t₁, e) ↦
      let step : Integrity t₁ × (t₁.sessions ≡ t.sessions) =
        subst (OnSome (λ t'. Integrity t' × (t'.sessions ≡ t.sessions))) e
          (apply_owned-Integrity o now t ok h.0) in
      rw (e, OnSome, apply_all_owned)
        (apply_all_owned-Integrity os now t₁ step.0
          (subst (λ ss. OwnersKnown ss os) (sym step.1) h.1))
]

pub apply_ownership-Integrity :
    (result : OwnershipResult) (now : ℕ) (t : Tables)
    → Integrity t
    → Owners result
    → OnSome Integrity (apply_ownership result now t)
unfolding apply_ownership
apply_ownership-Integrity result now t ok owners =
    let (ok', _, found) = apply_sessions-Integrity result.sessions now t ok in
    apply_all_owned-Integrity result.owned now (apply_sessions result.sessions now t) ok'
      (All-map (λ o k. found o.session k) result.owned owners)

pub end_absent_sessions-Integrity :
    (live : List ProcessIdentity) (now : ℕ) (t : Tables)
    → Integrity t
    → Integrity (end_absent_sessions live now t)
unfolding end_absent_sessions
end_absent_sessions-Integrity live now t ok =
    more_sessions t _ (λ id h. any-update_where _ (λ r. r.id == id) _ t.sessions (λ r. refl) ∙ h) ok

pub session_start-Integrity :
    (agent : Bytes) (root : ProcessIdentity) (vendor vendor_session_id : Bytes) (now : ℕ)
    (t : Tables)
    → Integrity t
    → Integrity (session_start agent root vendor vendor_session_id now t)
unfolding session_start ensure_session register_alias
session_start-Integrity agent root vendor vendor_session_id now t ok =
    let id = session_id root agent in
    let t₁ = (ensure_session agent root now t).1 in
    let ok₁ : Integrity t₁ =
      more_sessions t t₁.sessions
        (λ id' h. any-upsert (λ r. r.id == id) (λ r. r.id == id') _ _ t.sessions (λ r. refl) h)
        ok in
    let found : has_session t₁.sessions id ≡ true =
      any-upsert_key (λ r. r.id == id) _ _ t.sessions (λ r. refl) (grind arith) in
    record {
      members_known = ok₁.members_known;
      edges_known = ok₁.edges_known;
      aliases_known =
          All-append (λ a. has_session t₁.sessions a.session ≡ true) _ _
            (retain-All (λ a. has_session t₁.sessions a.session ≡ true) _ t₁.aliases
              ok₁.aliases_known)
            (found, tt);
    }

pub session_end-Integrity :
    (vendor vendor_session_id : Bytes) (now : ℕ) (t : Tables)
    → Integrity t
    → Integrity (session_end vendor vendor_session_id now t).1
unfolding session_end end_vendor_alias
session_end-Integrity vendor vendor_session_id now t ok =
    elim (Option-cases (session_id_for_alias vendor vendor_session_id t)) [
      | inl e ↦ rw (e, session_end) ok
      | inr (s, e) ↦
          rw (e, session_end)
            (record {
              members_known = ok.members_known;
              edges_known = ok.edges_known;
              aliases_known =
                  update_where-All (λ a. has_session t.sessions a.session ≡ true) _ _ t.aliases
                    (λ a _ k. k) ok.aliases_known;
            })
    ]
