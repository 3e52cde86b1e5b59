-- ===== src/Provenance/Keeps.antt =====
-- What `gc` of src/store.rs leaves alone: the owners of live processes.
use mathlib.Core.Path.{ap₂}
use wyd.Common.{
  ℕ, ◌-◌, ◌≡◌, refl, ap, ◌∙◌, sym, subst, ◌⊎◌, inl, inr, Bool, true, false, not, ◌||◌, List, [],
  ◌∷◌, ◌++◌, map, ◌==◌, ==_iff, if◌then◌else◌, Bool-cases, All, All-map, All-map₂, retain,
  retain-All, any, flat_map, flat_map-retain, any-retain_lost, any-append, retain-All-any, arith,
}
use wyd.Identity.{ProcessIdentity}
use wyd.Provenance.{ResourceRow, MemberRow, OwnershipRow, Tables, same_process, is_live, has}
use wyd.Provenance.Lookup.{owners, owner_rows, member_owners, root_owners}
use wyd.Provenance.Gc.{
  live_resources, protected, ended_before, delete_session, delete_sessions, is_orphan,
  delete_orphans, has_resource, delete_dangling, gc,
}

pub same_process-eq : (a b : ProcessIdentity) → same_process a b ≡ true → a ≡ b
same_process-eq a b h =
    let boot : a.boot_id ≡ b.boot_id = ground arith in
    let pid : a.pid ≡ b.pid = ground arith in
    let start : a.start_time ≡ b.start_time = ground arith in
    λ i. record { boot_id = boot i; pid = pid i; start_time = start i }

-- The rows of `exact_ownership` for a resource all name sessions that are kept.
abbrev Kept : List ℕ → ℕ → List OwnershipRow → Type 0
Kept kept rid rows = All (λ e. (e.resource == rid) ≡ true → has kept e.session ≡ true) rows

owners-retain :
    (id rid : ℕ) (kept : List ℕ) (rows : List OwnershipRow)
    → has kept id ≡ false
    → Kept kept rid rows
    → owners (retain (λ e. not (e.session == id)) rows) rid ≡ owners rows rid
unfolding owners retain
owners-retain id rid kept [] n h = refl
owners-retain id rid kept (e ∷ rows) n h = elim (Bool-cases (e.session == id)) [
  | inr s ↦ rw s (elim (Bool-cases (e.resource == rid)) [
    | inl r ↦ rw r (ap (◌∷◌ e.session) (owners-retain id rid kept rows n h.1))
    | inr r ↦ rw r (owners-retain id rid kept rows n h.1)
  ])
  | inl s ↦ elim (Bool-cases (e.resource == rid)) [
    | inl r ↦ absurd (
        let same : e.session ≡ id = (==_iff e.session id).0 s in
        let k : has kept id ≡ true = subst (λ i. has kept i ≡ true) same (h.0 r) in cc)
    | inr r ↦ rw (s, r) (owners-retain id rid kept rows n h.1)
  ]
]

delete_sessions-owners :
    (kept ids : List ℕ) (rid : ℕ) (t : Tables)
    → Kept kept rid t.ownership
    → owners (delete_sessions kept ids t).ownership rid ≡ owners t.ownership rid
unfolding delete_sessions delete_session
delete_sessions-owners kept [] rid t h = refl
delete_sessions-owners kept (id ∷ ids) rid t h = elim (Bool-cases (has kept id)) [
  | inl k ↦ rw k (delete_sessions-owners kept ids rid t h)
  | inr k ↦ rw k (
      delete_sessions-owners kept ids rid (delete_session id t) (
        retain-All (λ e. (e.resource == rid) ≡ true → has kept e.session ≡ true)
          (λ e. not (e.session == id)) t.ownership h)
      ∙ owners-retain id rid kept t.ownership k h)
]

pub delete_sessions-others :
    (kept ids : List ℕ) (t : Tables)
    → ((delete_sessions kept ids t).resources ≡ t.resources)
      × ((delete_sessions kept ids t).members ≡ t.members)
      × ((delete_sessions kept ids t).aliases ≡ t.aliases)
unfolding delete_sessions delete_session
delete_sessions-others kept [] t = (refl, refl, refl)
delete_sessions-others kept (id ∷ ids) t = elim (Bool-cases (has kept id)) [
  | inl k ↦ rw k (delete_sessions-others kept ids t)
  | inr k ↦ rw k (delete_sessions-others kept ids (delete_session id t))
]

protected-Kept :
    (resources : List ℕ) (rid : ℕ) (rows : List OwnershipRow)
    → has resources rid ≡ true
    → Kept (protected resources rows) rid rows
unfolding protected
protected-Kept resources rid rows h =
    All-map
      (λ e k eq. k (subst (λ r. has resources r ≡ true) (sym ((==_iff e.resource rid).0 eq)) h))
      rows (retain-All-any (λ (e : OwnershipRow). e.session) (λ e. has resources e.resource) rows)

-- A resource that is deleted for an orphan has no owners.
orphan-owners :
    (ownership : List OwnershipRow) (cutoff id : ℕ) (rows : List ResourceRow)
    → has_resource rows id ≡ true
    → has_resource (retain (λ r. not (is_orphan ownership cutoff r)) rows) id ≡ false
    → any (λ e. e.resource == id) ownership ≡ false
orphan-owners ownership cutoff id rows h k =
    let (r, same, orphan) =
      any-retain_lost (λ r. not (is_orphan ownership cutoff r)) (λ r. r.id == id) rows h k in
    let none : any (λ e. e.resource == r.id) ownership ≡ false = ground arith in
    subst (λ i. any (λ (e : OwnershipRow). e.resource == i) ownership ≡ false)
      ((==_iff r.id id).0 same) none

owners-none :
    (rows : List OwnershipRow) (id : ℕ)
    → any (λ e. e.resource == id) rows ≡ false
    → owners rows id ≡ []
unfolding owners any retain
owners-none [] id h = refl
owners-none (e ∷ rows) id h = elim (Bool-cases (e.resource == id)) [
  | inl r ↦ absurd (grind arith)
  | inr r ↦ rw r (owners-none rows id (ground arith))
]

is_live-same :
    (live : List ProcessIdentity) (a b : ProcessIdentity)
    → same_process a b ≡ true
    → is_live live b ≡ true
    → is_live live a ≡ true
is_live-same live a b e h = subst (λ c. is_live live c ≡ true) (sym (same_process-eq a b e)) h

or-true : (a : Bool) {b : Bool} → b ≡ true → (a || b) ≡ true
or-true a h = ground arith

module _ (t : Tables) (live : List ProcessIdentity) where
  live-roots :
      All (λ r. is_live live r.root ≡ true → has (live_resources live t) r.id ≡ true) t.resources
  unfolding live_resources
  live-roots =
      All-map
        (λ r h l.
          any-append _ _ _
          ∙ ap
              (λ b.
                b
                || any (◌==◌ r.id) (
                    map (λ m. m.resource)
                      (retain (λ (m : MemberRow). is_live live m.process) t.members)))
              (h l))
        t.resources
        (retain-All-any (λ (r : ResourceRow). r.id) (λ r. is_live live r.root) t.resources)

  live-members :
      All
        (λ m. is_live live m.process ≡ true → has (live_resources live t) m.resource ≡ true)
        t.members
  unfolding live_resources
  live-members =
      All-map
        (λ m h l.
          any-append (◌==◌ m.resource)
            (map (λ r. r.id) (retain (λ (r : ResourceRow). is_live live r.root) t.resources))
            (map (λ m. m.resource) (retain (λ (m : MemberRow). is_live live m.process) t.members))
          ∙ or-true _ (h l))
        t.members
        (retain-All-any (λ (m : MemberRow). m.resource) (λ m. is_live live m.process) t.members)

-- What a row joins with, before and after, if it stays, or nothing if it goes.
joins :
    (same stays : Bool) (before after : List ℕ)
    → (same ≡ true → after ≡ before)
    → (same ≡ true → stays ≡ false → after ≡ [])
    → ((stays ≡ true) × ((if same then after else []) ≡ (if same then before else [])))
      ⊎ ((stays ≡ false) × ((if same then before else []) ≡ []))
joins true true before after e none = inl (refl, e refl)
joins true false before after e none = inr (refl, sym (e refl) ∙ none refl refl)
joins false true before after e none = inl (refl, refl)
joins false false before after e none = inr (refl, refl)

-- The rows that name a live process join as before: `gc` keeps the edges of its resources.
module _ (t : Tables) (live : List ProcessIdentity) (retention_secs now : ℕ) (p : ProcessIdentity)
    (lives : is_live live p ≡ true) where
  kept_sessions : List ℕ
  kept_sessions = protected (live_resources live t) t.ownership

  candidates : List ℕ
  candidates = map (λ r. r.id) (retain (ended_before (now - retention_secs)) t.sessions)

  t₁ : Tables
  t₁ = delete_sessions kept_sessions candidates t

  owners-kept :
      (rid : ℕ)
      → has (live_resources live t) rid ≡ true
      → owners t₁.ownership rid ≡ owners t.ownership rid
  unfolding kept_sessions candidates t₁
  owners-kept rid h =
      delete_sessions-owners kept_sessions candidates rid t
        (protected-Kept (live_resources live t) rid t.ownership h)

  rows : List ResourceRow
  rows = retain (λ r. not (is_orphan t₁.ownership (now - retention_secs) r)) t.resources

  member_rows :
      All (λ m. has_resource t.resources m.resource ≡ true) t.members
      → flat_map
          (member_owners t₁.ownership p)
          (retain (λ m. has_resource rows m.resource) t.members)
        ≡ flat_map (member_owners t.ownership p) t.members
  unfolding rows
  member_rows h =
      flat_map-retain (member_owners t₁.ownership p) (member_owners t.ownership p)
        (λ m. has_resource rows m.resource) t.members
        (All-map₂
          (λ m k l.
            joins (same_process m.process p) (has_resource rows m.resource)
              (owners t.ownership m.resource) (owners t₁.ownership m.resource)
              (λ same. owners-kept m.resource (l (is_live-same live m.process p same lives)))
              (λ same gone.
                owners-none t₁.ownership m.resource (
                  orphan-owners t₁.ownership (now - retention_secs) m.resource t.resources k gone)))
          t.members h (live-members t live))

  root_rows :
      flat_map (root_owners t₁.ownership p) rows ≡ flat_map (root_owners t.ownership p) t.resources
  unfolding rows
  root_rows =
      flat_map-retain (root_owners t₁.ownership p) (root_owners t.ownership p)
        (λ r. not (is_orphan t₁.ownership (now - retention_secs) r)) t.resources
        (All-map
          (λ r l.
            joins (same_process r.root p) (not (is_orphan t₁.ownership (now - retention_secs) r))
              (owners t.ownership r.id) (owners t₁.ownership r.id)
              (λ same. owners-kept r.id (l (is_live-same live r.root p same lives)))
              (λ same gone. owners-none t₁.ownership r.id (ground arith)))
          t.resources (live-roots t live))

  looked_up : List ResourceRow → List MemberRow → List ℕ
  looked_up rs ms =
      let left = retain (λ r. not (is_orphan t₁.ownership (now - retention_secs) r)) rs in
      flat_map (member_owners t₁.ownership p) (retain (λ m. has_resource left m.resource) ms)
      ++ flat_map (root_owners t₁.ownership p) left

  -- Collecting garbage changes nothing in what is known of a live process: the query for its owner
  -- finds the same rows as before. Each member's resource has its row, which every history of calls
  -- ensures; the retention, the time and what else is live are arbitrary.
  pub gc-keeps_live :
      All (λ m. has_resource t.resources m.resource ≡ true) t.members
      → owner_rows (gc retention_secs now live t) p ≡ owner_rows t p
  unfolding gc delete_orphans delete_dangling owner_rows t₁ kept_sessions candidates rows looked_up
  gc-keeps_live h =
      let (resources, members, _) = delete_sessions-others kept_sessions candidates t in
      ap (λ rs. looked_up rs t₁.members) resources
      ∙ ap (looked_up t.resources) members
      ∙ ap₂ ◌++◌ (member_rows h) root_rows
