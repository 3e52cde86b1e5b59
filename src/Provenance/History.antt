-- ===== src/Provenance/History.antt =====
-- The calls that src/collect.rs and src/server.rs make on the provenance of src/store.rs, in any order.
use wyd.Common.{ℕ, ◌≡◌, true, List, [], ◌∷◌, Option, none, some, OnSome, unwrap_or}
use wyd.Run.{Bytes}
use wyd.Identity.{ProcessIdentity}
use wyd.Runtime.{Children}
use wyd.Ownership.{derive_ownership}
use wyd.Ownership.Owners.{derive_ownership-Owners}
use wyd.Provenance.{
  Tables, no_tables, is_live, apply_ownership, end_absent_sessions, session_start, session_end,
}
use wyd.Provenance.Gc.{gc}
use wyd.Provenance.Integrity.{
  Integrity, apply_ownership-Integrity, end_absent_sessions-Integrity, session_start-Integrity,
  session_end-Integrity,
}
use wyd.Provenance.Collected.{gc-Integrity}
use wyd.Provenance.Keeps.{gc-keeps_live}
use wyd.Provenance.Lookup.{owner_rows}

pub data Call : Type 0 where
  observe : Children → (ℕ → Option ProcessIdentity) → ℕ → Call
  end_absent : List ProcessIdentity → ℕ → Call
  collect : ℕ → ℕ → List ProcessIdentity → Call
  vendor_start : Bytes → ProcessIdentity → Bytes → Bytes → ℕ → Call
  vendor_end : Bytes → Bytes → ℕ → Call

-- The tables after a call; a pass whose transaction fails leaves them as they are.
unfoldable pub step : Call → Tables → Tables
step (observe items identities now) t =
    unwrap_or (apply_ownership (derive_ownership items identities now) now t) t
step (end_absent live now) t = end_absent_sessions live now t
step (collect retention_secs now live) t = gc retention_secs now live t
step (vendor_start agent root vendor vendor_session_id now) t =
    session_start agent root vendor vendor_session_id now t
step (vendor_end vendor vendor_session_id now) t = (session_end vendor vendor_session_id now t).1

unfoldable pub steps : List Call → Tables → Tables
steps [] t = t
steps (c ∷ cs) t = steps cs (step c t)

pub unwrap_or-OnSome :
    (P : Tables → Type 0) (o : Option Tables) (t : Tables) → OnSome P o → P t → P (unwrap_or o t)
unwrap_or-OnSome P none t h k = k
unwrap_or-OnSome P (some t') t h k = h

step-Integrity : (c : Call) (t : Tables) → Integrity t → Integrity (step c t)
unfolding step
step-Integrity (observe items identities now) t ok =
    unwrap_or-OnSome Integrity _ t
      (apply_ownership-Integrity (derive_ownership items identities now) now t ok
        (derive_ownership-Owners identities now items))
      ok
step-Integrity (end_absent live now) t ok = end_absent_sessions-Integrity live now t ok
step-Integrity (collect retention_secs now live) t ok = gc-Integrity retention_secs now live t ok
step-Integrity (vendor_start agent root vendor vsid now) t ok =
    session_start-Integrity agent root vendor vsid now t ok
step-Integrity (vendor_end vendor vsid now) t ok = session_end-Integrity vendor vsid now t ok

-- From any tables whose rows refer to rows that are there, every history of passes, ended sessions,
-- garbage collections and vendor calls, failed passes included, leads to such tables again: each
-- member and each owned resource has its resource row, and each owner and each alias its session.
pub steps-Integrity : (cs : List Call) (t : Tables) → Integrity t → Integrity (steps cs t)
unfolding steps
steps-Integrity [] t ok = ok
steps-Integrity (c ∷ cs) t ok = steps-Integrity cs (step c t) (step-Integrity c t ok)

pub no_tables-Integrity : Integrity no_tables
no_tables-Integrity = record { members_known = tt; edges_known = tt; aliases_known = tt }

-- After any history of calls from empty tables, collecting garbage changes nothing in what is known of
-- a live process: the query for its owner finds the same rows as before, so the same owner, whatever
-- the retention and the time.
pub steps-gc_keeps_live :
    (cs : List Call) (retention_secs now : ℕ) (live : List ProcessIdentity) (p : ProcessIdentity)
    → is_live live p ≡ true
    → owner_rows (gc retention_secs now live (steps cs no_tables)) p
      ≡ owner_rows (steps cs no_tables) p
steps-gc_keeps_live cs retention_secs now live p lives =
    gc-keeps_live (steps cs no_tables) live retention_secs now p lives
      (steps-Integrity cs no_tables no_tables-Integrity).members_known
