-- ===== src/Actions/Sending.antt =====
-- Which processes `send` of src/actions/process.rs signals.
use mathlib.Core.Option
use mathlib.Core.Bool.{◌||◌}
use wyd.Common.{
  ℕ, suc, ◌+◌, ◌≤◌, ◌≡◌, refl, ap, ◌∙◌, inl, inr, Bool, true, false, ◌&&◌, Option, none, some,
  Option-cases, Bool-cases, List, [], ◌∷◌, ◌==◌, ==_iff, map, retain, any, length, arith,
}
use wyd.Runtime.{RuntimeItem, ProcessInfo}
use wyd.Actions.{
  Identity, KillReport, has, item_pids, by_pid, freeze, identities_for, Outcome, sent, gone,
  refused, identity_holds, count, send_from, send, kill_item,
}
use wyd.Actions.Walk.{distinct}
use wyd.Actions.Order.{postorder-Orders}

count-sum :
    (o : Outcome) (r : KillReport)
    → ((count o r).signaled + (count o r).skipped + (count o r).failed
        ≡ suc (r.signaled + r.skipped + r.failed))
      × ((count o r).signaled + (count o r).failed ≤ suc (r.signaled + r.failed))
count-sum sent r = (omega arith, omega arith)
count-sum gone r = (omega arith, omega arith)
count-sum refused r = (omega arith, omega arith)

module _ (live : ℕ → Option ℕ) (kill : ℕ → Outcome) where
  -- The pids that `kill` is called for, and how the report counts them.
  abbrev Sends : KillReport → KillReport × List ℕ → List Identity → Type 0
  Sends r out ids =
      (out.1 ≡ map (λ i. i.pid) (retain (identity_holds live) ids))
      × (out.0.signaled + out.0.skipped + out.0.failed
          ≡ r.signaled + r.skipped + r.failed + length ids)
      × (out.0.signaled + out.0.failed ≤ r.signaled + r.failed + length out.1)

  send_from-Sends : (r : KillReport) (ids : List Identity) → Sends r (send_from live kill r ids) ids
  unfolding send_from retain
  send_from-Sends r [] = (refl, omega arith, omega arith)
  send_from-Sends r (i ∷ ids) = elim (Bool-cases (identity_holds live i)) [
    | inl e ↦
        let c = count-sum (kill i.pid) r in
        let (p, s, l) = send_from-Sends (count (kill i.pid) r) ids in
        rw (e, send_from) (ap (◌∷◌ i.pid) p, omega (arith, s, c.0), omega (arith, l, c.1))
    | inr e ↦
        let (p, s, l) = send_from-Sends (record r { skipped = suc r.skipped }) ids in
        rw (e, send_from) (p, omega (arith, s), omega (arith, l))
  ]

module _ (live : ℕ → Option ℕ) where
  -- A process lives now, and where both start times are known it began as the recorded one.
  abbrev pub same_invocation : Option ℕ → ℕ → Bool
  same_invocation none start_time = false
  same_invocation (some now) start_time = start_time == 0 || now == 0 || start_time == now

  -- The snapshot has a process with the pid, and it is the one that lives now.
  unfoldable pub still_holds : List ProcessInfo → ℕ → Bool
  still_holds processes pid = elim (by_pid processes pid) [
    | none ↦ false
    | some p ↦ same_invocation (live pid) p.start_time
  ]

  identity_holds-same :
      (pid start_time : ℕ) (now : Option ℕ)
      → live pid ≡ now
      → identity_holds live (record { pid = pid; start_time = start_time })
        ≡ same_invocation now start_time
  identity_holds-same pid start_time none e = rw (e, identity_holds) refl
  identity_holds-same pid start_time (some now) e = rw (e, identity_holds) (ground arith)

  freeze-holds :
      (processes : List ProcessInfo) (pids : List ℕ)
      → map (λ i. i.pid) (retain (identity_holds live) (freeze processes pids))
        ≡ retain (still_holds processes) pids
  unfolding freeze retain still_holds
  freeze-holds processes [] = refl
  freeze-holds processes (pid ∷ pids) = elim (Option-cases (by_pid processes pid)) [
    | inl e ↦ rw (e, still_holds) (freeze-holds processes pids)
    | inr (p, e) ↦
        let same = identity_holds-same pid p.start_time (live pid) refl in
        elim (Bool-cases (same_invocation (live pid) p.start_time)) [
          | inl h ↦
              rw (e, still_holds) (rw (same ∙ h, h) (ap (◌∷◌ pid) (freeze-holds processes pids)))
          | inr h ↦ rw (e, still_holds) (rw (same ∙ h, h) (freeze-holds processes pids))
        ]
  ]

has-retain : (p : ℕ → Bool) (xs : List ℕ) (a : ℕ) → has (retain p xs) a ≡ (has xs a && p a)
unfolding any retain
has-retain p [] a = refl
has-retain p (x ∷ xs) a = elim (Bool-cases (a == x)) [
  | inl e ↦ elim (Bool-cases (p x)) [
    | inl k ↦ let pa : p a ≡ true = ap p ((==_iff a x).0 e) ∙ k in rw k (rw (e, pa) refl)
    | inr k ↦
        let pa : p a ≡ false = ap p ((==_iff a x).0 e) ∙ k in
        rw k (has-retain p xs a ∙ ground arith)
  ]
  | inr e ↦ elim (Bool-cases (p x)) [
    | inl k ↦ rw (k, e) (has-retain p xs a)
    | inr k ↦ rw (k, e) (has-retain p xs a)
  ]
]

distinct-retain : (p : ℕ → Bool) (xs : List ℕ) → distinct xs ≡ true → distinct (retain p xs) ≡ true
unfolding distinct retain
distinct-retain p [] h = refl
distinct-retain p (x ∷ xs) h = elim (Bool-cases (p x)) [
  | inl k ↦ rw k (ground (arith, has-retain p xs x, distinct-retain p xs))
  | inr k ↦ rw k (distinct-retain p xs (ground arith))
]

-- The outcome of stopping an item: a report, and the pids signalled.
abbrev pub Kills : (ℕ → Option ℕ) → (ℕ → Outcome) → RuntimeItem → List ProcessInfo → Type 0
Kills live kill i processes =
    (r : KillReport) × (pids : List ℕ) × (kill_item live kill i processes ≡ some (r, pids))
    × (distinct pids ≡ true)
    × ((pid : ℕ) → has pids pid ≡ (has (item_pids i) pid && still_holds live processes pid))
    × (r.signaled + r.failed ≤ length pids)

-- Stopping an item always ends. It signals exactly the pids recorded on the item or on an item below
-- it, each once, of which the snapshot has a process and the process that lives now under the pid has
-- the same start time, as far as both are known: no pid that another process has taken over, and no
-- process outside the item. What the report counts as signalled or failed is among these.
pub kill_item-Kills :
    (live : ℕ → Option ℕ) (kill : ℕ → Outcome) (i : RuntimeItem) (processes : List ProcessInfo)
    → Kills live kill i processes
unfolding kill_item identities_for send
kill_item-Kills live kill i processes =
    let (out, e, once, same) = postorder-Orders (item_pids i) processes in
    let zero_report : KillReport = record { signaled = 0; skipped = 0; failed = 0 } in
    let ids = freeze processes out in
    let (p, _, l) = send_from-Sends live kill zero_report ids in
    let signalled : (send live kill ids).1 ≡ retain (still_holds live processes) out =
      p ∙ freeze-holds live processes out in
    (
      (send live kill ids).0,
      (send live kill ids).1,
      ap (λ o. Option.map (send live kill) (Option.map (freeze processes) o)) e,
      ap distinct signalled ∙ distinct-retain (still_holds live processes) out once,
      λ pid.
          ap (λ xs. has xs pid) signalled
          ∙ has-retain (still_holds live processes) out pid
          ∙ ap (λ b. b && still_holds live processes pid) (same pid),
      omega (arith, l),
    )
