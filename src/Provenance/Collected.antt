-- ===== src/Provenance/Collected.antt =====
-- `gc` of src/store.rs deletes nothing that a row it leaves refers to.
use wyd.Common.{
  ℕ, ◌-◌, ◌≡◌, sym, subst, inl, inr, true, not, List, [], ◌∷◌, map, ◌==◌, ==_iff, Bool-cases,
  All-map₂, retain, retain-All, retain-passes, any, arith, any_self, any-retain_kept,
}
use wyd.Identity.{ProcessIdentity}
use wyd.Provenance.{OwnershipRow, Tables, has}
use wyd.Provenance.Integrity.{EdgesKnown, Integrity}
use wyd.Provenance.Gc.{
  live_resources, protected, ended_before, delete_session, delete_sessions, is_orphan,
  delete_orphans, has_resource, has_session, delete_dangling, gc,
}

abbrev OwnKnown : Tables → Type 0
OwnKnown t = EdgesKnown t.resources t.sessions t.ownership

-- A session goes with the rows that name it for an owner.
delete_session-OwnKnown : (id : ℕ) (t : Tables) → OwnKnown t → OwnKnown (delete_session id t)
unfolding delete_session
delete_session-OwnKnown id t ok =
    All-map₂
      (λ e k stays. (
        k.0,
        any-retain_kept (λ r. not (r.id == id)) (λ r. r.id == e.session) t.sessions
            (λ r same. ground arith) k.1,
      ))
      (retain (λ e. not (e.session == id)) t.ownership)
      (retain-All
        (λ e.
          (has_resource t.resources e.resource ≡ true) × (has_session t.sessions e.session ≡ true))
        (λ e. not (e.session == id)) t.ownership ok)
      (retain-passes (λ e. not (e.session == id)) t.ownership)

delete_sessions-OwnKnown :
    (kept ids : List ℕ) (t : Tables) → OwnKnown t → OwnKnown (delete_sessions kept ids t)
unfolding delete_sessions
delete_sessions-OwnKnown kept [] t ok = ok
delete_sessions-OwnKnown kept (id ∷ ids) t ok = elim (Bool-cases (has kept id)) [
  | inl k ↦ rw k (delete_sessions-OwnKnown kept ids t ok)
  | inr k ↦
      rw k
        (delete_sessions-OwnKnown kept ids (delete_session id t) (delete_session-OwnKnown id t ok))
]

-- A resource with an owner is no orphan.
delete_orphans-OwnKnown :
    (cutoff : ℕ) (t : Tables) → OwnKnown t → OwnKnown (delete_orphans cutoff t)
unfolding delete_orphans
delete_orphans-OwnKnown cutoff t ok =
    All-map₂
      (λ e k self. (
        any-retain_kept (λ r. not (is_orphan t.ownership cutoff r)) (λ r. r.id == e.resource)
            t.resources
            (λ r same.
              let owned : any (λ f. f.resource == r.id) t.ownership ≡ true =
                subst (λ i. any (λ (f : OwnershipRow). f.resource == i) t.ownership ≡ true)
                  (sym ((==_iff r.id e.resource).0 same)) self in
              ground arith)
            k.0,
        k.1,
      ))
      t.ownership ok (any_self (λ e. e.resource) t.ownership)

delete_dangling-Integrity : (t : Tables) → OwnKnown t → Integrity (delete_dangling t)
unfolding delete_dangling
delete_dangling-Integrity t ok = record {
  members_known = retain-passes (λ m. has_resource t.resources m.resource) t.members;
  edges_known = ok;
  aliases_known = retain-passes (λ a. has_session t.sessions a.session) t.aliases;
}

pub gc-Integrity :
    (retention_secs now : ℕ) (live : List ProcessIdentity) (t : Tables)
    → Integrity t
    → Integrity (gc retention_secs now live t)
unfolding gc
gc-Integrity retention_secs now live t ok =
    let kept = protected (live_resources live t) t.ownership in
    let candidates = map (λ r. r.id) (retain (ended_before (now - retention_secs)) t.sessions) in
    let t₁ = delete_sessions kept candidates t in
    delete_dangling-Integrity (delete_orphans (now - retention_secs) t₁) (
      delete_orphans-OwnKnown (now - retention_secs) t₁
        (delete_sessions-OwnKnown kept candidates t ok.edges_known))
