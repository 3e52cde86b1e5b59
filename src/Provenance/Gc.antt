-- ===== src/Provenance/Gc.antt =====
-- `gc` of src/store.rs: what is deleted of the provenance, and what is kept.
use wyd.Common.{
  ℕ, ◌-◌, ◌++◌, Bool, false, not, ◌&&◌, none, some, List, [], ◌∷◌, ltb, ◌==◌, if◌then◌else◌, map,
  retain, any,
}
use wyd.Identity.{ProcessIdentity}
use wyd.Provenance.{
  SessionRow, ResourceRow, MemberRow, OwnershipRow, AliasRow, Tables, is_live, has,
}

-- The resources with a live root or member.
unfoldable pub live_resources : List ProcessIdentity → Tables → List ℕ
live_resources live t =
    map (λ r. r.id) (retain (λ (r : ResourceRow). is_live live r.root) t.resources)
    ++ map (λ m. m.resource) (retain (λ (m : MemberRow). is_live live m.process) t.members)

-- The sessions that own one of some resources.
unfoldable pub protected : List ℕ → List OwnershipRow → List ℕ
protected resources ownership =
    map (λ e. e.session) (retain (λ (e : OwnershipRow). has resources e.resource) ownership)

abbrev pub ended_before : ℕ → SessionRow → Bool
ended_before cutoff r = elim r.ended_at [ none ↦ false | some at ↦ ltb at cutoff ]

-- The body of the loop over the candidates.
unfoldable pub delete_session : ℕ → Tables → Tables
delete_session id t = record t {
  sessions = retain (λ r. not (r.id == id)) t.sessions;
  ownership = retain (λ e. not (e.session == id)) t.ownership;
}

unfoldable pub delete_sessions : List ℕ → List ℕ → Tables → Tables
delete_sessions kept [] t = t
delete_sessions kept (id ∷ ids) t =
    if has kept id
    then delete_sessions kept ids t
    else delete_sessions kept ids (delete_session id t)

abbrev pub is_orphan : List OwnershipRow → ℕ → ResourceRow → Bool
is_orphan ownership cutoff r =
    not (any (λ e. e.resource == r.id) ownership) && ltb r.last_seen_at cutoff

unfoldable pub delete_orphans : ℕ → Tables → Tables
delete_orphans cutoff t = record t {
  resources = retain (λ r. not (is_orphan t.ownership cutoff r)) t.resources;
}

abbrev pub has_resource : List ResourceRow → ℕ → Bool
has_resource rows id = any (λ r. r.id == id) rows

abbrev pub has_session : List SessionRow → ℕ → Bool
has_session rows id = any (λ r. r.id == id) rows

unfoldable pub delete_dangling : Tables → Tables
delete_dangling t = record t {
  members = retain (λ (m : MemberRow). has_resource t.resources m.resource) t.members;
  aliases = retain (λ (a : AliasRow). has_session t.sessions a.session) t.aliases;
}

unfoldable pub gc : ℕ → ℕ → List ProcessIdentity → Tables → Tables
gc retention_secs now live t =
    let cutoff = now - retention_secs in
    let kept = protected (live_resources live t) t.ownership in
    let candidates = map (λ r. r.id) (retain (ended_before cutoff) t.sessions) in
    delete_dangling (delete_orphans cutoff (delete_sessions kept candidates t))
