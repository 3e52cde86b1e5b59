-- ===== src/Provenance/Deletes.antt =====
-- What `gc` of src/store.rs deletes.
use wyd.Common.{
  ℕ, ◌-◌, ◌≡◌, refl, ap, ◌∙◌, sym, inl, inr, Bool, true, false, not, ◌&&◌, ◌||◌, List, [], ◌∷◌, map,
  ◌==◌, ==_iff, Bool-cases, subst, All, retain, retain-passes, All-map, any, arith,
}
use wyd.Identity.{ProcessIdentity}
use wyd.Provenance.{SessionRow, Tables, has}
use wyd.Provenance.Gc.{
  live_resources, protected, ended_before, delete_session, delete_sessions, is_orphan,
  delete_orphans, has_resource, has_session, delete_dangling, gc,
}

-- A row that the test finds is the session `x`.
found-absorbed :
    (row x id : ℕ) (rest : Bool)
    → (row == x) ≡ true
    → (rest && not (id == x)) ≡ (((row == id) || rest) && not (id == x))
found-absorbed row x id rest e = grind arith

kept-stays :
    (row x id : ℕ) (rest : Bool)
    → (row == x) ≡ false
    → ((row == id) || (rest && not (id == x))) ≡ (((row == id) || rest) && not (id == x))
kept-stays row x id rest e = grind arith

has_session-retain :
    (x id : ℕ) (rows : List SessionRow)
    → has_session (retain (λ r. not (r.id == x)) rows) id ≡ (has_session rows id && not (id == x))
unfolding any retain
has_session-retain x id [] = refl
has_session-retain x id (r ∷ rows) = elim (Bool-cases (r.id == x)) [
  | inl e ↦ rw e (has_session-retain x id rows ∙ found-absorbed r.id x id (has_session rows id) e)
  | inr e ↦ rw e (
      ap (λ b. (r.id == id) || b) (has_session-retain x id rows)
      ∙ kept-stays r.id x id (has_session rows id) e)
]

transported :
    (kept : List ℕ) (x id : ℕ) (b : Bool) → has kept x ≡ b → (id == x) ≡ true → has kept id ≡ b
transported kept x id b k e = subst (λ i. has kept i ≡ b) (sym ((==_iff id x).0 e)) k

spared :
    (s x i k : Bool)
    → (x ≡ true → k ≡ true)
    → (s && not (i && not k)) ≡ (s && not ((x || i) && not k))
spared s true i k h = rw (h refl) (ground arith)
spared s false i k h = refl

deleted :
    (s x i k : Bool)
    → (x ≡ true → k ≡ false)
    → ((s && not x) && not (i && not k)) ≡ (s && not ((x || i) && not k))
deleted s true i k h = rw (h refl) (ground arith)
deleted s false i k h = ground arith

delete_sessions-ids :
    (kept ids : List ℕ) (t : Tables) (id : ℕ)
    → has_session (delete_sessions kept ids t).sessions id
      ≡ (has_session t.sessions id && not (has ids id && not (has kept id)))
unfolding delete_sessions delete_session any
delete_sessions-ids kept [] t id = ground arith
delete_sessions-ids kept (x ∷ ids) t id = elim (Bool-cases (has kept x)) [
  | inl k ↦ rw k (
      delete_sessions-ids kept ids t id
      ∙ spared (has_session t.sessions id) (id == x) (has ids id) (has kept id)
          (transported kept x id true k))
  | inr k ↦ rw k (
      delete_sessions-ids kept ids (delete_session x t) id
      ∙ ap (λ b. b && not (has ids id && not (has kept id))) (has_session-retain x id t.sessions)
      ∙ deleted (has_session t.sessions id) (id == x) (has ids id) (has kept id)
          (transported kept x id false k))
]

-- What `gc` deletes. A session stays if and only if it was there and either no row of it ended before
-- the start of the retention or it owns a resource with a live root or member. Every resource that
-- stays has an owner that stays or was seen within the retention, every member that stays has its
-- resource and every alias its session.
pub gc-deletes :
    (retention_secs now id : ℕ) (live : List ProcessIdentity) (t : Tables)
    → let after = gc retention_secs now live t in
      (has_session after.sessions id ≡ (
        has_session t.sessions id
        && not (
            has (map (λ r. r.id) (retain (ended_before (now - retention_secs)) t.sessions)) id
            && not (has (protected (live_resources live t) t.ownership) id))))
      × All (λ r. is_orphan after.ownership (now - retention_secs) r ≡ false) after.resources
      × All (λ m. has_resource after.resources m.resource ≡ true) after.members
      × All (λ a. has_session after.sessions a.session ≡ true) after.aliases
unfolding gc delete_orphans delete_dangling
gc-deletes retention_secs now id live t =
    let kept = protected (live_resources live t) t.ownership in
    let candidates = map (λ r. r.id) (retain (ended_before (now - retention_secs)) t.sessions) in
    let deleted = delete_sessions kept candidates t in
    (
      delete_sessions-ids kept candidates t id,
      All-map (λ r k. ground arith) _
          (retain-passes (λ r. not (is_orphan deleted.ownership (now - retention_secs) r))
            deleted.resources),
      retain-passes _ deleted.members,
      retain-passes _ deleted.aliases,
    )
