-- ===== src/Provenance/Examples.antt =====
-- A store of src/store.rs over two passes, and instances of the theorems about the provenance tables.
use wyd.Common.{
  ℕ, ◌+◌, arith, ◌&&◌, not, true, false, map, retain, All, ◌≡◌, refl, none, some, inl, inr, Option,
  List, [], ◌∷◌, any,
}
use wyd.Identity.{ProcessIdentity}
use wyd.Runtime.{Category, agent, mcp, active, Head, item, Children, no_more, child}
use wyd.Ownership.{RuntimeSession, OwnedResource, OwnershipResult}
use wyd.Provenance.{no_tables, has}
use wyd.Provenance.Lookup.{Picks, owner_rows}
use wyd.Provenance.Gc.{
  gc, protected, live_resources, ended_before, is_orphan, has_resource, has_session,
}
use wyd.Provenance.Deletes.{gc-deletes}
use wyd.Provenance.Integrity.{Integrity}
use wyd.Provenance.Applied.{distinct, all_distinct}
use wyd.Provenance.History.{
  Call, observe, end_absent, vendor_start, steps, no_tables-Integrity, steps-Integrity,
  steps-gc_keeps_live,
}
use wyd.Provenance.Explain.{Answers, explain_process-total}
use wyd.Provenance.Recorded.{Records, apply_ownership-Records}

abbrev process : ℕ → ProcessIdentity
process pid = record { boot_id = 7; pid = pid; start_time = 1000 + pid }

abbrev session : RuntimeSession
session = record {
  id = 501;
  agent = 111 ∷ [];
  root = process 10;
  project = none;
  started_at = 1010;
  last_seen_at = 5000;
  ended_at = none;
}

abbrev owned : ℕ → OwnedResource
owned pid = record {
  resource = 600 + pid;
  kind = mcp;
  root = process pid;
  members = process pid ∷ process 99 ∷ [];
  session = 501;
}

abbrev result : OwnershipResult
result = record { sessions = session ∷ []; owned = owned 11 ∷ owned 12 ∷ [] }

-- The first row found.
abbrev first : List ℕ → Option ℕ
first [] = none
first (a ∷ _) = some a

first-Picks : Picks first
unfolding any
first-Picks [] = inl (refl, refl)
first-Picks (a ∷ as') = inr (a, refl, grind arith)

abbrev head : Category → ℕ → Head
head category pid = record {
  category = category;
  display_name = 111 ∷ [];
  root_pid = some pid;
  process_ids = pid ∷ [];
  state = active;
  suspicion = none;
  project = none;
}

-- Agent 10 with a server 11.
abbrev tree : Children
tree = child (item (head agent 10) (child (item (head mcp 11) no_more) no_more)) no_more

abbrev identities : ℕ → Option ProcessIdentity
identities pid = some (process pid)

-- The agent is seen with its server, then gone, and a vendor starts a session of another process.
abbrev history : List Call
history =
    observe tree identities 5000
    ∷ vendor_start (106 ∷ []) (process 20) (118 ∷ []) (49 ∷ []) 5500
    ∷ end_absent (process 11 ∷ []) 6000
    ∷ []

steps-Integrity_example : Integrity (steps history no_tables)
steps-Integrity_example = steps-Integrity history no_tables no_tables-Integrity

-- Much later the server still runs.
steps-gc_keeps_live_example :
    owner_rows (gc 1000 900000 (process 11 ∷ []) (steps history no_tables)) (process 11)
    ≡ owner_rows (steps history no_tables) (process 11)
unfolding any
steps-gc_keeps_live_example =
    steps-gc_keeps_live history 1000 900000 (process 11 ∷ []) (process 11) refl

explain_process-total_example : Answers first (steps history no_tables) (process 11)
explain_process-total_example = explain_process-total first history (process 11) first-Picks

apply_ownership-Records_example : Records result 5000 no_tables (owned 11)
unfolding all_distinct distinct any
apply_ownership-Records_example =
    apply_ownership-Records result 5000 no_tables (owned 11) [] (owned 12 ∷ []) refl refl (refl, tt)

-- Much later: the vendor's session ended with its process and owns nothing that lives.
gc-deletes_example :
    let t = steps history no_tables in
    let after = gc 1000 900000 (process 11 ∷ []) t in
    (has_session after.sessions 501 ≡ (
      has_session t.sessions 501
      && not (
          has (map (λ r. r.id) (retain (ended_before 899000) t.sessions)) 501
          && not (has (protected (live_resources (process 11 ∷ []) t) t.ownership) 501))))
    × All (λ r. is_orphan after.ownership 899000 r ≡ false) after.resources
    × All (λ m. has_resource after.resources m.resource ≡ true) after.members
    × All (λ a. has_session after.sessions a.session ≡ true) after.aliases
gc-deletes_example = gc-deletes 1000 900000 501 (process 11 ∷ []) (steps history no_tables)
