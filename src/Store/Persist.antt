-- ===== src/Store/Persist.antt =====
-- Transitions of one run reach src/store.rs in any order: the supervisor numbers them under the
-- run's lock, and writes them after it has let the lock go.
use mathlib.Core.Option
use wyd.Common.{
  ℕ, ◌<◌, ◌≡◌, refl, ap, ◌∙◌, inl, inr, Bool, false, not, ◌&&◌, Option, none, some, List, [], ◌∷◌,
  ◌++◌, arith, ltb, ◌==◌, if◌then◌else◌, is_some, find?, Bool-cases, All,
}
use wyd.Logs.{LogState}
use wyd.Run.{finished, is_terminal}
use wyd.Store.{
  RunId, Row, RunResult, RunStep, Store, update, run_event, run_transition, run_finish, find_row,
  or_else,
}

-- A write of the run's worker, with the revision that it got.
pub data Write : Type 0 where
  transition : ℕ → RunStep → ℕ → Write
  finish : ℕ → RunResult → LogState → Write

unfoldable pub write : Store → RunId → Write → Store
write s id (transition revision step now) = (run_transition s id revision step now).0
write s id (finish revision result logs) = (run_finish s id revision result logs).0

unfoldable pub writes : Store → RunId → List Write → Store
writes s id [] = s
writes s id (w ∷ ws) = writes (write s id w) id ws

-- What a write makes of the run's row.
abbrev pub on_row : Write → Row → Row
on_row (transition revision step now) r =
    if ltb r.revision revision
    then record r { state = step.state; cleanup = step.cleanup; revision = revision }
    else r
on_row (finish revision result logs) r = if is_terminal r.state then r else record r {
  state = finished;
  cleanup = result.cleanup;
  revision = revision;
  started_at = or_else result.started_at r.started_at;
  result = some result;
  logs = logs;
}

get-update :
    (id : RunId) (p : Row → Bool) (f g : Row → Row) (rs : List Row)
    → ((r : Row) → (f r).id ≡ r.id)
    → ((r : Row) → r.id ≡ id → (if p r then f r else r) ≡ g r)
    → find? (λ r. r.id == id) (update p f rs) ≡ Option.map g (find? (λ r. r.id == id) rs)
unfolding find? update
get-update id p f g [] keep same = refl
get-update id p f g (r ∷ rs) keep same =
    let kept : (if p r then f r else r).id ≡ r.id = ground (arith, keep r) in
    elim (Bool-cases (r.id == id)) [
      | inl hit ↦ rw (kept, hit) (ap some (same r (ground arith)))
      | inr miss ↦ rw (kept, miss) (get-update id p f g rs keep same)
    ]

get-unchanged :
    (id : RunId) (p : Row → Bool) (g : Row → Row) (rs : List Row)
    → find? p rs ≡ none
    → ((r : Row) → r.id ≡ id → p r ≡ false → r ≡ g r)
    → find? (λ r. r.id == id) rs ≡ Option.map g (find? (λ r. r.id == id) rs)
unfolding find?
get-unchanged id p g [] absent same = refl
get-unchanged id p g (r ∷ rs) absent same = elim (Bool-cases (r.id == id)) [
  | inl hit ↦ rw hit (ap some (same r (ground arith) (ground arith)))
  | inr miss ↦ rw miss (get-unchanged id p g rs (ground arith) same)
]

get-transition :
    (s : Store) (id : RunId) (revision : ℕ) (step : RunStep) (now : ℕ)
    → find_row (write s id (transition revision step now)) id
      ≡ Option.map (on_row (transition revision step now)) (find_row s id)
unfolding write find_row run_transition run_event
get-transition s id revision step now =
    elim (Bool-cases
      (is_some (find? (λ (r : Row). r.id == id && ltb r.revision revision) s.runs))) [
        | inl found ↦
            rw (found, write) (get-update id _ _ _ s.runs (λ r. refl) (λ r e. ground arith))
        | inr absent ↦
            rw (absent, write)
              (get-unchanged id (λ x. x.id == id && ltb x.revision revision) _ s.runs (ground arith)
                (λ r e n. ground arith))
      ]

pub get-finish :
    (s : Store) (id : RunId) (revision : ℕ) (result : RunResult) (logs : LogState)
    → find_row (write s id (finish revision result logs)) id
      ≡ Option.map (on_row (finish revision result logs)) (find_row s id)
unfolding write find_row run_finish run_event
get-finish s id revision result logs =
    elim (Bool-cases
      (is_some (find? (λ (r : Row). r.id == id && not (is_terminal r.state)) s.runs))) [
        | inl found ↦
            rw (found, write) (get-update id _ _ _ s.runs (λ r. refl) (λ r e. ground arith))
        | inr absent ↦
            rw (absent, write)
              (get-unchanged id (λ x. x.id == id && not (is_terminal x.state)) _ s.runs
                (ground arith) (λ r e n. ground arith))
      ]

get-write :
    (s : Store) (id : RunId) (w : Write) (r : Row)
    → find_row s id ≡ some r
    → find_row (write s id w) id ≡ some (on_row w r)
get-write s id (transition revision step now) r e =
    get-transition s id revision step now ∙ ap (Option.map _) e
get-write s id (finish revision result logs) r e =
    get-finish s id revision result logs ∙ ap (Option.map _) e

-- A row that is not finished, before a revision, with that start.
abbrev Open : Option ℕ → ℕ → Row → Type 0
Open started revision r =
    (is_terminal r.state ≡ false) × (r.revision < revision) × (r.started_at ≡ started)

-- A row as a finish of that revision leaves it, where the start was known or not.
abbrev pub Finished : Option ℕ → ℕ → RunResult → LogState → Row → Type 0
Finished started revision result logs r =
    (r.state ≡ finished)
    × (r.revision ≡ revision)
    × (r.result ≡ some result)
    × (r.logs ≡ logs)
    × (r.cleanup ≡ result.cleanup)
    × (r.started_at ≡ or_else result.started_at started)

-- A transition to a state that is not `finished`, numbered before a revision.
abbrev pub Earlier : ℕ → Write → Type 0
Earlier revision (transition v step now) = (v < revision) × (is_terminal step.state ≡ false)
Earlier revision (finish v result logs) = ⊥

Earlier-Open :
    (started : Option ℕ) (revision : ℕ) (w : Write) (r : Row)
    → Earlier revision w
    → Open started revision r
    → Open started revision (on_row w r)
Earlier-Open started revision (transition v step now) r e o = ground arith
Earlier-Open started revision (finish v result logs) r e o = absurd e

Earlier-Finished :
    (started : Option ℕ) (revision : ℕ) (result : RunResult) (logs : LogState) (w : Write) (r : Row)
    → Earlier revision w
    → Finished started revision result logs r
    → Finished started revision result logs (on_row w r)
Earlier-Finished started revision result logs (transition v step now) r e o = ground arith
Earlier-Finished started revision result logs (finish v other late) r e o = absurd e

writes-keep :
    (P : Row → Type 0) (revision : ℕ)
    → ((w : Write) (r : Row) → Earlier revision w → P r → P (on_row w r))
    → (ws : List Write) (s : Store) (id : RunId) (r : Row) → All (Earlier revision) ws
    → find_row s id ≡ some r
    → P r
    → (r' : Row) × (find_row (writes s id ws) id ≡ some r') × P r'
unfolding writes
writes-keep P revision keep [] s id r h e p = (r, e, p)
writes-keep P revision keep (w ∷ ws) s id r h e p =
    writes-keep P revision keep ws (write s id w) id (on_row w r) h.1 (get-write s id w r e)
      (keep w r h.0 p)

writes-append :
    (s : Store) (id : RunId) (xs ys : List Write)
    → writes s id (xs ++ ys) ≡ writes (writes s id xs) id ys
unfolding writes
writes-append s id [] ys = refl
writes-append s id (x ∷ xs) ys = writes-append (write s id x) id xs ys

Open-Finished :
    (started : Option ℕ) (revision : ℕ) (result : RunResult) (logs : LogState) (r : Row)
    → Open started revision r
    → Finished started revision result logs (on_row (finish revision result logs) r)
Open-Finished started revision result logs r (unfinished, _, at) =
    rw unfinished (refl, refl, refl, refl, refl, ap (or_else result.started_at) at)

-- Where the finish of a run has the greatest of its revisions, the row ends as that finish wrote
-- it, with its revision, its result, its logs and its cleanup, in whatever order the transitions and the
-- finish reach the store: a transition that comes late changes nothing.
pub writes-Finished :
    (s : Store) (id : RunId) (r : Row) (revision : ℕ) (result : RunResult) (logs : LogState)
    (before after : List Write)
    → find_row s id ≡ some r
    → is_terminal r.state ≡ false
    → r.revision < revision
    → All (Earlier revision) before
    → All (Earlier revision) after
    → (r' : Row) × (find_row (writes s id (before ++ finish revision result logs ∷ after)) id
        ≡ some r')
      × Finished r.started_at revision result logs r'
unfolding writes
writes-Finished s id r revision result logs before after e o lt hb ha =
    let (r₁, e₁, p₁) =
      writes-keep (Open r.started_at revision) revision (Earlier-Open r.started_at revision) before
        s id r hb e (o, lt, refl) in
    let s₁ = writes s id before in
    rw (writes-append s id before (finish revision result logs ∷ after)) (
      writes-keep (Finished r.started_at revision result logs) revision
        (Earlier-Finished r.started_at revision result logs) after
        (write s₁ id (finish revision result logs)) id (on_row (finish revision result logs) r₁) ha
        (get-write s₁ id (finish revision result logs) r₁ e₁)
        (Open-Finished r.started_at revision result logs r₁ p₁))
