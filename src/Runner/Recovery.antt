-- ===== src/Runner/Recovery.antt =====
-- `recover` of src/runner/mod.rs: at its start the supervisor finishes the runs that an earlier one
-- left unfinished.
--
-- What it does to their processes is an argument: for a row, how many groups were signalled and how
-- many known processes are left. `display` prints a number.
use mathlib.Core.Option
use wyd.Common.{
  ℕ, ◌+◌, ◌≡◌, refl, ap, ◌∙◌, sym, subst, inl, inr, Bool, true, false, not, ◌&&◌, none, some,
  Option, List, [], ◌∷◌, arith, ◌==◌, ==_iff, if◌then◌else◌, is_some, find?, retain, map,
  Bool-cases, String,
}
use Prim.Native.String
use wyd.Logs.{LogState}
use wyd.Run.{CleanupState, complete, incomplete, unknown, supervisor_lost, finished, is_terminal}
use wyd.Store.{
  RunId, Row, RunResult, Store, update, run_event, run_finish, record_from_row, find_row, run_get,
  run_unfinished, or_else,
}
use wyd.Store.Persist.{Write, on_row, get-finish, write}

module _ (boot now : ℕ) (reaped : Row → ℕ × ℕ) (display : ℕ → String) where
  abbrev is_same_boot : Row → Bool
  is_same_boot r = elim r.leader [ none ↦ false | some l ↦ l.boot_id == boot ]

  abbrev cleanup_after : Row → CleanupState
  cleanup_after r =
      if not (is_same_boot r) then unknown else if (reaped r).1 == 0 then complete else incomplete

  abbrev detail_after : Row → String
  detail_after r =
      if is_same_boot r
      then String.◌++◌ "supervisor lost; reaped " (
          String.◌++◌ (display (reaped r).0) (
            String.◌++◌ " orphaned group(s), " (String.◌++◌ (display (reaped r).1) " survivor(s)")))
      else "supervisor lost before the machine rebooted; processes cannot be attributed"

  unfoldable pub lost : Row → RunResult
  lost r = record {
    outcome = supervisor_lost;
    exit_code = none;
    signal = none;
    started_at = elim r.result [ none ↦ none | some result ↦ result.started_at ];
    finished_at = now;
    duration_ms = 0;
    cleanup = cleanup_after r;
    detail = some (detail_after r);
  }

  -- The loop over the unfinished runs.
  unfoldable pub recover_all : List Row → Store → Store
  recover_all [] s = s
  recover_all (r ∷ rs) s = recover_all rs (run_finish s r.id (r.revision + 1) (lost r) r.logs).0

  unfoldable pub recover : Store → Store
  recover s = recover_all (run_unfinished s) s

  abbrev closes : Row → Row → Row
  closes x r = on_row (Write.finish (x.revision + 1) (lost x) x.logs) r

  abbrev closed : Option Row → Row → Row
  closed none r = r
  closed (some x) r = closes x r

  closed-closes : (o : Option Row) (x r : Row) → closed o (closes x r) ≡ closes x r
  closed-closes none x r = refl
  closed-closes (some y) x r = elim (Bool-cases (is_terminal r.state)) [
    | inl e ↦ rw (e, e) refl
    | inr e ↦ rw e refl
  ]

  closed-terminal : (o : Option Row) (r : Row) → is_terminal r.state ≡ true → closed o r ≡ r
  closed-terminal none r e = refl
  closed-terminal (some x) r e = rw e refl

find-update_other :
    (id other : RunId) (f : Row → Row) (rs : List Row)
    → ((r : Row) → (f r).id ≡ r.id)
    → (other == id) ≡ false
    → find? (λ r. r.id == id) (update (λ r. r.id == other && not (is_terminal r.state)) f rs)
      ≡ find? (λ r. r.id == id) rs
unfolding find? update
find-update_other id other f [] keep n = refl
find-update_other id other f (r ∷ rs) keep n =
    let kept : (if r.id == other && not (is_terminal r.state) then f r else r).id ≡ r.id =
      ground (arith, keep r) in
    elim (Bool-cases (r.id == other)) [
      | inl e ↦
          let same : r.id ≡ other = (==_iff r.id other).0 e in
          let miss : (r.id == id) ≡ false = ap (λ i. i == id) same ∙ n in
          rw (kept, miss) (find-update_other id other f rs keep n)
      | inr e ↦
          rw e (ap (λ o. if r.id == id then some r else o) (find-update_other id other f rs keep n))
    ]

get-finish_other :
    (s : Store) (id other : RunId) (revision : ℕ) (result : RunResult) (logs : LogState)
    → (other == id) ≡ false
    → find_row (run_finish s other revision result logs).0 id ≡ find_row s id
unfolding find_row run_finish run_event
get-finish_other s id other revision result logs n =
    elim (Bool-cases
      (is_some (find? (λ (r : Row). r.id == other && not (is_terminal r.state)) s.runs))) [
        | inl e ↦ rw e (find-update_other id other _ s.runs (λ r. refl) n)
        | inr e ↦ rw e refl
      ]

find-unfinished :
    (id : RunId) (rs : List Row) (r : Row)
    → find? (λ r. r.id == id) rs ≡ some r
    → is_terminal r.state ≡ false
    → find? (λ r. r.id == id) (retain (λ r. not (is_terminal r.state)) rs) ≡ some r
unfolding find? retain
find-unfinished id [] r e h = e
find-unfinished id (x ∷ rs) r e h = elim (Bool-cases (x.id == id)) [
  | inl hit ↦
      let found : find? (λ y. y.id == id) (x ∷ rs) ≡ some x = rw hit refl in
      let still : is_terminal x.state ≡ false =
        ap (λ o. elim o as (λ _. Bool) [ none ↦ true | some y ↦ is_terminal y.state ])
          (sym found ∙ e)
        ∙ h in
      rw (still, hit) (sym found ∙ e)
  | inr miss ↦
      let rest : find? (λ y. y.id == id) (x ∷ rs) ≡ find? (λ y. y.id == id) rs = rw miss refl in
      elim (Bool-cases (is_terminal x.state)) [
        | inl t ↦ rw t (find-unfinished id rs r (sym rest ∙ e) h)
        | inr t ↦ rw (t, miss) (find-unfinished id rs r (sym rest ∙ e) h)
      ]
]

find-map :
    (id : RunId) (rs : List Row)
    → find? (λ r. r.id == id) (map record_from_row rs)
      ≡ Option.map record_from_row (find? (λ r. r.id == id) rs)
unfolding find? record_from_row
find-map id [] = refl
find-map id (r ∷ rs) = elim (Bool-cases (r.id == id)) [
  | inl e ↦ rw e refl
  | inr e ↦ rw e (find-map id rs)
]

map-same : (o : Option Row) → o ≡ Option.map (λ r. r) o
map-same none = refl
map-same (some r) = refl

module _ (boot now : ℕ) (reaped : Row → ℕ × ℕ) (display : ℕ → String) where
  map-closed :
      (o : Option Row) (x : Row) (q : Option Row)
      → Option.map
          (closed boot now reaped display o)
          (Option.map (closes boot now reaped display x) q)
        ≡ Option.map (closes boot now reaped display x) q
  map-closed o x none = refl
  map-closed o x (some r) = ap some (closed-closes boot now reaped display o x r)

  get-closes :
      (s : Store) (id : RunId) (x : Row)
      → (x.id == id) ≡ true
      → find_row (run_finish s x.id (x.revision + 1) (lost boot now reaped display x) x.logs).0 id
        ≡ Option.map (closes boot now reaped display x) (find_row s id)
  unfolding write
  get-closes s id x hit =
      subst
        (λ i.
          find_row (run_finish s x.id (x.revision + 1) (lost boot now reaped display x) x.logs).0 i
          ≡ Option.map (closes boot now reaped display x) (find_row s i))
        ((==_iff x.id id).0 hit) (get-finish s x.id _ _ _)

  recover_all-row :
      (rs : List Row) (s : Store) (id : RunId)
      → find_row (recover_all boot now reaped display rs s) id
        ≡ Option.map (closed boot now reaped display (find? (λ r. r.id == id) rs)) (find_row s id)
  unfolding recover_all find?
  recover_all-row [] s id = map-same (find_row s id)
  recover_all-row (x ∷ rs) s id = elim (Bool-cases (x.id == id)) [
    | inl hit ↦
        let o = find? (λ r. r.id == id) rs in
        rw hit (
          recover_all-row rs _ id
          ∙ ap (Option.map (closed boot now reaped display o)) (get-closes s id x hit)
          ∙ map-closed o x (find_row s id))
    | inr miss ↦ rw miss (
        recover_all-row rs _ id
        ∙ ap (Option.map (closed boot now reaped display (find? (λ r. r.id == id) rs)))
            (get-finish_other s id x.id _ _ _ miss))
  ]

  -- A run after recovery, as it is read.
  abbrev pub recovered : Row → Row
  recovered r =
      if is_terminal r.state
      then r
      else let start = or_else (lost boot now reaped display r).started_at r.started_at in
        record r {
          state = finished;
          cleanup = (lost boot now reaped display r).cleanup;
          revision = r.revision + 1;
          started_at = start;
          result = some (record (lost boot now reaped display r) { started_at = start });
        }

  unfinished-closed :
      (id : RunId) (rs : List Row) (o : Option Row)
      → find? (λ r. r.id == id) rs ≡ o
      → Option.map record_from_row (
          Option.map
            (closed boot now reaped display (
              find?
                (λ r. r.id == id)
                (map record_from_row (retain (λ r. not (is_terminal r.state)) rs))))
            o)
        ≡ Option.map recovered (Option.map record_from_row o)
  unfolding record_from_row
  unfinished-closed id rs none e = refl
  unfinished-closed id rs (some r) e = elim (Bool-cases (is_terminal r.state)) [
    | inl t ↦
        ap some (ap record_from_row (closed-terminal boot now reaped display _ r t) ∙ rw t refl)
    | inr t ↦
        rw
          (find-map id (retain (λ r. not (is_terminal r.state)) rs), find-unfinished id rs r e t, t)
          refl
  ]

  -- What recovery makes of the run with an id: one that is finished stays as it is; any other is
  -- finished as lost by its supervisor, with the next revision, the logs that it has, and the start
  -- that its leader was given, if it had one; and where there was none, there is none. This holds
  -- for any effect of the signals that recovery sends.
  pub recover-recovered :
      (s : Store) (id : RunId)
      → run_get (recover boot now reaped display s) id ≡ Option.map recovered (run_get s id)
  unfolding recover run_unfinished run_get find_row
  recover-recovered s id =
      ap (Option.map record_from_row) (recover_all-row (run_unfinished s) s id)
      ∙ unfinished-closed id s.runs _ refl
