-- ===== src/Actions.antt =====
-- src/actions/process.rs: which processes of an item are signalled, in which order, and what is reported.
--
-- `postorder` follows parents as the snapshot gives them, which may be in a circle. Its recursive `walk`
-- is on fuel, `none` when it runs out; `postorder` gives it one unit more than there are seeds. A
-- snapshot of live processes and the outcome of `kill` are arguments.
pub mod Walk
pub mod Order
pub mod KidsFirst
pub mod Sending
mod Examples
use mathlib.Core.Option
use wyd.Common.{
  ℕ, zero, suc, ◌+◌, Bool, true, false, not, ◌&&◌, ◌||◌, Option, none, some, List, [], ◌∷◌, ◌++◌,
  ◌==◌, if◌then◌else◌, map, retain, find?, any, length,
}
use wyd.Runtime.{Head, RuntimeItem, item, Children, no_more, child, ProcessInfo}

pub record Identity : Type 0 where
  pub pid : ℕ
  pub start_time : ℕ

pub record KillReport : Type 0 where
  pub signaled : ℕ
  pub skipped : ℕ
  pub failed : ℕ

unfoldable mutual
  pub item_pids : RuntimeItem → List ℕ
  item_pids (item h children) = h.process_ids ++ children_pids children

  pub children_pids : Children → List ℕ
  children_pids no_more = []
  children_pids (child i rest) = item_pids i ++ children_pids rest

abbrev pub has : List ℕ → ℕ → Bool
has ids id = any (◌==◌ id) ids

abbrev pub is_parent : ℕ → ProcessInfo → Bool
is_parent pid p = elim p.parent_pid [ none ↦ false | some ppid ↦ ppid == pid ]

-- The entry of `pid` in the map `children`: in the order of the snapshot, and between seeds only.
unfoldable pub kids_of : List ℕ → List ProcessInfo → ℕ → List ℕ
kids_of seeds processes pid =
    map (λ p. p.pid)
      (retain (λ (p : ProcessInfo). is_parent pid p && has seeds p.pid && has seeds pid) processes)

-- `seen` and `out`.
pub record Visit : Type 0 where
  pub seen : List ℕ
  pub out : List ℕ

abbrev pub push : ℕ → Option Visit → Option Visit
push pid none = none
push pid (some v) = some (record v { out = v.out ++ pid ∷ [] })

-- The loop over pids, for what is done with each.
unfoldable pub walk_all : (ℕ → Visit → Option Visit) → List ℕ → Visit → Option Visit
walk_all visit [] v = some v
walk_all visit (pid ∷ pids) v = elim (visit pid v) [
  | none ↦ none
  | some v₁ ↦ walk_all visit pids v₁
]

unfoldable pub walk : (ℕ → List ℕ) → ℕ → ℕ → Visit → Option Visit
walk kids zero pid v = none
walk kids (suc fuel) pid v = elim (has v.seen pid) [
  | true ↦ some v
  | false ↦ push pid (walk_all (walk kids fuel) (kids pid) (record v { seen = pid ∷ v.seen }))
]

unfoldable pub postorder : List ℕ → List ProcessInfo → Option (List ℕ)
postorder seeds processes =
    Option.map (λ (v : Visit). v.out)
      (walk_all (walk (kids_of seeds processes) (suc (length seeds))) seeds
        (record { seen = []; out = [] }))

-- A map from pids holds the last process with the pid.
unfoldable pub by_pid : List ProcessInfo → ℕ → Option ProcessInfo
by_pid [] pid = none
by_pid (p ∷ ps) pid =
    let later = by_pid ps pid in
    elim later [ none ↦ if p.pid == pid then some p else none | some q ↦ some q ]

abbrev pub frozen : ℕ → Option ProcessInfo → List Identity → List Identity
frozen pid none ids = ids
frozen pid (some p) ids = record { pid = pid; start_time = p.start_time } ∷ ids

unfoldable pub freeze : List ProcessInfo → List ℕ → List Identity
freeze processes [] = []
freeze processes (pid ∷ pids) = frozen pid (by_pid processes pid) (freeze processes pids)

unfoldable pub identities_for : RuntimeItem → List ProcessInfo → Option (List Identity)
identities_for i processes = Option.map (freeze processes) (postorder (item_pids i) processes)

-- What `signal_one` gives: success, ESRCH, or another error.
pub data Outcome : Type 0 where
  sent gone refused : Outcome

-- The start time of a live process, 0 if unknown.
abbrev pub identity_holds : (ℕ → Option ℕ) → Identity → Bool
identity_holds live id = elim (live id.pid) [
  | none ↦ false
  | some start_time ↦
      if not (id.start_time == 0) && not (start_time == 0)
      then id.start_time == start_time
      else true
]

abbrev pub count : Outcome → KillReport → KillReport
count sent r = record r { signaled = suc r.signaled }
count gone r = record r { skipped = suc r.skipped }
count refused r = record r { failed = suc r.failed }

-- The loop of `send`: the report, and the pids that `kill` is called for, in order.
module _ (live : ℕ → Option ℕ) (kill : ℕ → Outcome) where
  unfoldable pub send_from : KillReport → List Identity → KillReport × List ℕ
  send_from report [] = (report, [])
  send_from report (id ∷ ids) = elim (identity_holds live id) [
    | true ↦ let (r, pids) = send_from (count (kill id.pid) report) ids in (r, id.pid ∷ pids)
    | false ↦ send_from (record report { skipped = suc report.skipped }) ids
  ]

  unfoldable pub send : List Identity → KillReport × List ℕ
  send ids = send_from (record { signaled = 0; skipped = 0; failed = 0 }) ids

-- `send` for the identities of an item: what Stop and Kill do with an item.
unfoldable pub kill_item :
    (ℕ → Option ℕ) → (ℕ → Outcome) → RuntimeItem → List ProcessInfo → Option (KillReport × List ℕ)
kill_item live kill i processes = Option.map (send live kill) (identities_for i processes)
