-- ===== src/Collection/Scan.antt =====
-- What the scans of src/collect.rs leave in the store.
use wyd.Common.{
  Bool, ℕ, ◌≡◌, refl, ap, ◌⊎◌, inl, inr, true, false, not, ◌&&◌, Option, none, some, is_some,
  Bool-cases, List, [], ◌∷◌, ◌==◌, if◌then◌else◌, unwrap_or, All, retain-All, update_where,
}
use wyd.Identity.{ProcessIdentity}
use wyd.Runtime.{Children, ProcessInfo}
use wyd.Ownership.{derive_ownership}
use wyd.Ownership.Owners.{derive_ownership-Owners}
use wyd.Provenance.{SessionRow, Tables, has, is_live, apply_ownership, end_absent_sessions}
use wyd.Provenance.Gc.{delete_session, delete_sessions, delete_orphans, delete_dangling, gc}
use wyd.Provenance.Integrity.{Integrity, apply_ownership-Integrity, end_absent_sessions-Integrity}
use wyd.Provenance.Collected.{gc-Integrity}
use wyd.Provenance.History.{unwrap_or-OnSome}
use wyd.Collection.{
  DecisionRow, Failures, identities, live_of, retention_secs, Tracker, open_tracker, record_scan,
}
use wyd.Collection.Attribution.{Decided, attribution_for_all-Decided}

-- The session has ended, or its root lives.
abbrev pub EndedOrLive : List ProcessIdentity → SessionRow → Type 0
EndedOrLive live r = (is_some r.ended_at ≡ true) ⊎ (is_live live r.root ≡ true)

end_absent_sessions-EndedOrLive :
    (live : List ProcessIdentity) (now : ℕ) (t : Tables)
    → All (EndedOrLive live) (end_absent_sessions live now t).sessions
unfolding end_absent_sessions update_where
end_absent_sessions-EndedOrLive live now t = all t.sessions
  where
    each :
        (r : SessionRow) (ended : Option ℕ)
        → r.ended_at ≡ ended
        → EndedOrLive live (
            if elim ended [ none ↦ true | some at ↦ false ] && not (is_live live r.root)
            then record r { ended_at = some now }
            else r)
    each r none e = elim (Bool-cases (is_live live r.root)) [
      | inl k ↦ rw k (inr k)
      | inr k ↦ rw k (inl refl)
    ]
    each r (some at) e = inl (ap is_some e)

    all :
        (rows : List SessionRow)
        → All (EndedOrLive live) (
            update_where
              (λ r. elim r.ended_at [ none ↦ true | some at ↦ false ] && not (is_live live r.root))
              (λ r. record r { ended_at = some now })
              rows)
    all [] = tt
    all (r ∷ rows) = (each r r.ended_at refl, all rows)

delete_sessions-All :
    (P : SessionRow → Type 0) (kept ids : List ℕ) (t : Tables)
    → All P t.sessions
    → All P (delete_sessions kept ids t).sessions
unfolding delete_sessions delete_session
delete_sessions-All P kept [] t h = h
delete_sessions-All P kept (id ∷ ids) t h = elim (Bool-cases (has kept id)) [
  | inl k ↦ rw k (delete_sessions-All P kept ids t h)
  | inr k ↦ rw k (
      delete_sessions-All P kept ids (delete_session id t)
        (retain-All P (λ r. not (r.id == id)) t.sessions h))
]

gc-All :
    (P : SessionRow → Type 0) (secs now : ℕ) (live : List ProcessIdentity) (t : Tables)
    → All P t.sessions
    → All P (gc secs now live t).sessions
unfolding gc delete_orphans delete_dangling
gc-All P secs now live t h = delete_sessions-All P _ _ t h

-- What one scan sees: how queries pick rows, the writes that fail, the boot, the processes, the items
-- and the time.
pub record Scan : Type 0 where
  pub pick : List ℕ → Option ℕ
  pub fails : Failures
  pub boot : ℕ
  pub processes : List ProcessInfo
  pub items : Children
  pub now : ℕ

unfoldable pub scan : Scan → Tracker → Tracker
scan s t = record_scan s.pick s.fails s.boot s.processes s.items s.now t

unfoldable pub scans : List Scan → Tracker → Tracker
scans [] t = t
scans (s ∷ ss) t = scans ss (scan s t)

abbrev pub Sound : Tracker → Type 0
Sound t = Integrity t.tables × Decided t.decisions

-- Unless the write that ends sessions fails.
abbrev pub Ends : Scan → Tracker → Type 0
Ends s t = (s.fails.ends ≡ true) ⊎ All (EndedOrLive (live_of s.boot s.processes)) t.tables.sessions

either : (P : Tables → Type 0) (b : Bool) (t u : Tables) → P t → P u → P (if b then t else u)
either P true t u h k = h
either P false t u h k = k

ended-EndedOrLive :
    (live : List ProcessIdentity) (now : ℕ) (b : Bool) (t : Tables)
    → (b ≡ true) ⊎ All (EndedOrLive live) (if b then t else end_absent_sessions live now t).sessions
ended-EndedOrLive live now true t = inl refl
ended-EndedOrLive live now false t = inr (end_absent_sessions-EndedOrLive live now t)

scan-Sound : (s : Scan) (t : Tracker) → Sound t → Sound (scan s t) × Ends s (scan s t)
unfolding scan record_scan
scan-Sound s t ok =
    let ids = identities s.boot s.processes in
    let live = live_of s.boot s.processes in
    let result = derive_ownership s.items ids s.now in
    let written = unwrap_or (apply_ownership result s.now t.tables) t.tables in
    let applied = if s.fails.applies then t.tables else written in
    let ended = if s.fails.ends then applied else end_absent_sessions live s.now applied in
    let collects = t.gc_pending && not s.fails.collects in
    let applied_ok : Integrity applied = either Integrity s.fails.applies t.tables written ok.0 (
      unwrap_or-OnSome Integrity (apply_ownership result s.now t.tables) t.tables
        (apply_ownership-Integrity result s.now t.tables ok.0
          (derive_ownership-Owners ids s.now s.items))
        ok.0) in
    let ended_ok : Integrity ended =
      either Integrity s.fails.ends applied (end_absent_sessions live s.now applied) applied_ok
        (end_absent_sessions-Integrity live s.now applied applied_ok) in
    let closed = ended-EndedOrLive live s.now s.fails.ends applied in
    let decided = attribution_for_all-Decided _ s.items t.decisions ok.1 in
    (
      (
        either Integrity collects (gc retention_secs s.now live ended) ended
            (gc-Integrity retention_secs s.now live ended ended_ok) ended_ok,
        decided,
      ),
      elim closed [
        | inl failed ↦ inl failed
        | inr all ↦ inr (
            either (λ u. All (EndedOrLive live) u.sessions) collects
              (gc retention_secs s.now live ended) ended
              (gc-All _ retention_secs s.now live ended all) all)
      ],
    )

scans-Sound : (ss : List Scan) (t : Tracker) → Sound t → Sound (scans ss t)
unfolding scans
scans-Sound [] t ok = ok
scans-Sound (s ∷ ss) t ok = scans-Sound ss (scan s t) (scan-Sound s t ok).0

-- Scans keep what they find in the store in order, whichever of their writes fail, so long as queries
-- succeed, and with clocks that go back too: from a store where it was so, no row refers to one that is
-- not there, and each resource has at most one decision, of the current rules. After a scan whose write
-- for it did not fail, a session that is not marked as ended has a root that the scan has seen alive.
pub scans-record :
    (tables : Tables) (decisions : List DecisionRow) (ss : List Scan) (s : Scan)
    → Sound (open_tracker tables decisions)
    → let t = scan s (scans ss (open_tracker tables decisions)) in Sound t × Ends s t
scans-record tables decisions ss s ok =
    scan-Sound s (scans ss (open_tracker tables decisions))
      (scans-Sound ss (open_tracker tables decisions) ok)
