-- ===== src/Collection/Examples.antt =====
-- Two scans of src/collect.rs, the second after the agent is gone, and instances of the theorems.
use wyd.Common.{refl, true, false, ◌≡◌, ℕ, ◌+◌, none, some, Option, List, [], ◌∷◌}
use wyd.Identity.{ProcessIdentity}
use wyd.Runtime.{Category, agent, mcp, active, Head, item, no_more, child, ProcessInfo}
use wyd.Provenance.Lookup.{Explanation}
use wyd.Provenance.{no_tables}
use wyd.Provenance.History.{no_tables-Integrity}
use wyd.Collection.{identities, Pass, Failures, Tracker, open_tracker, session_leftovers}
use wyd.Collection.Attribution.{once_each}
use wyd.Collection.Marks.{MarksAll, session_leftovers-Marks}
use wyd.Collection.Scan.{Scan, scan, scans, Sound, Ends, scans-record}

abbrev process : ℕ → Option ℕ → ProcessInfo
process pid parent_pid = record {
  pid = pid;
  parent_pid = parent_pid;
  name = 110 ∷ [];
  command = [];
  executable = none;
  cwd = none;
  memory_bytes = 0;
  start_time = 1000 + pid;
  tty = none;
}

abbrev head : Category → ℕ → Head
head category pid = record {
  category = category;
  display_name = 111 ∷ [];
  root_pid = some pid;
  process_ids = pid ∷ [];
  state = active;
  suspicion = none;
  project = none;
}

abbrev first : List ℕ → Option ℕ
first [] = none
first (a ∷ _) = some a

abbrev no_failures : Failures
no_failures = record { applies = false; ends = false; decides = λ _. false; collects = false }

abbrev new_tracker : Tracker
new_tracker = open_tracker no_tables []

new_tracker-Sound : Sound new_tracker
unfolding once_each
new_tracker-Sound = (no_tables-Integrity, record { current = tt; once = refl })

abbrev with_agent : Scan
with_agent = record {
  pick = first;
  fails = no_failures;
  boot = 7;
  processes = process 10 none ∷ process 11 (some 10) ∷ [];
  items = child (item (head agent 10) (child (item (head mcp 11) no_more) no_more)) no_more;
  now = 5000;
}

-- The decisions of this scan are lost.
abbrev busy : Scan
busy = record with_agent { fails = record no_failures { decides = λ _. true } }

abbrev without_agent : Scan
without_agent = record {
  pick = first;
  fails = no_failures;
  boot = 7;
  processes = process 11 (some 1) ∷ [];
  items = child (item (head mcp 11) no_more) no_more;
  now = 6000;
}

scans-record_example :
    let t = scan without_agent (scans (busy ∷ with_agent ∷ []) new_tracker) in
    Sound t × Ends without_agent t
scans-record_example =
    scans-record no_tables [] (busy ∷ with_agent ∷ []) without_agent new_tracker-Sound

abbrev root : ProcessIdentity
root = record { boot_id = 7; pid = 11; start_time = 1011 }

abbrev known : Explanation
known = record {
  resource_id = 611;
  owner = 501;
  session = record {
    id = 501;
    agent = 111 ∷ [];
    project = none;
    started_at = 1010;
    last_seen_at = 5000;
    ended_at = some 6000;
  };
}

-- The server outlives its agent.
abbrev later : Pass
later = record {
  pick = first;
  tables = (scan without_agent (scans (with_agent ∷ []) new_tracker)).tables;
  identities = identities 7 without_agent.processes;
  now = 7000;
  undecided = λ _. false;
}

session_leftovers-Marks_example :
    MarksAll later without_agent.items (session_leftovers later without_agent.items)
    × (session_leftovers later (session_leftovers later without_agent.items)
        ≡ session_leftovers later without_agent.items)
session_leftovers-Marks_example = session_leftovers-Marks later without_agent.items
