-- ===== src/Runner/Durable.antt =====
-- The slot of a run in src/runner/mod.rs and its row in src/store.rs.
use mathlib.Core.List.{Permᴰ}
use mathlib.Core.Option
use wyd.Common.{
  ℕ, ◌+◌, ◌≤◌, ◌<◌, ◌≡◌, refl, ap, ◌∙◌, sym, subst, ◌⊎◌, inl, inr, true, false, Option, none, some,
  OnSome, List, [], ◌∷◌, ◌++◌, arith, All,
}
use wyd.Logs.{LogState}
use wyd.Run.{finished, is_terminal}
use wyd.Store.{RunId, Row, RunResult, Store, record_from_row, find_row, run_get, or_else}
use wyd.Store.Persist.{Write, writes, Earlier, Finished, writes-Finished}
use wyd.Runner.{RunInner, transition, finish, or_kept, Call, transitions, finishes, call}

-- The calls one after the other, and the writes that they send, in the order of the calls.
unfoldable pub calls : RunInner → List Call → RunInner × List Write
calls inner [] = (inner, [])
calls inner (c ∷ cs) =
    let (inner₁, w) = call inner c in let (inner₂, ws) = calls inner₁ cs in (inner₂, w ++ ws)

-- `transition` is called with `Starting`, `Running` and `Stopping`.
abbrev pub Moves : Call → Type 0
Moves (transitions step now) = is_terminal step.state ≡ false
Moves (finishes result logs) = Unit

-- One of the writes is that finish, and the others are transitions with lower revisions.
abbrev One : ℕ → RunResult → LogState → List Write → Type 0
One revision result logs [] = ⊥
One revision result logs (w ∷ ws) =
    ((w ≡ Write.finish revision result logs) × All (Earlier revision) ws)
    ⊎ (Earlier revision w × One revision result logs ws)

Earlier-perm :
    (revision : ℕ) (xs ys : List Write)
    → Permᴰ xs ys
    → All (Earlier revision) xs
    → All (Earlier revision) ys
Earlier-perm revision _ _ Permᴰ.nil h = tt
Earlier-perm revision _ _ (Permᴰ.cons e p) h =
    (subst (Earlier revision) e h.0, Earlier-perm revision _ _ p h.1)
Earlier-perm revision _ _ (Permᴰ.swap e f) h =
    (subst (Earlier revision) f h.1.0, (subst (Earlier revision) e h.0, h.1.1))
Earlier-perm revision _ _ (Permᴰ.trans p q) h =
    Earlier-perm revision _ _ q (Earlier-perm revision _ _ p h)

One-perm :
    (revision : ℕ) (result : RunResult) (logs : LogState) (xs ys : List Write)
    → Permᴰ xs ys
    → One revision result logs xs
    → One revision result logs ys
One-perm revision result logs _ _ Permᴰ.nil h = h
One-perm revision result logs _ _ (Permᴰ.cons e p) h = elim h [
  | inl (w, rest) ↦ inl (sym e ∙ w, Earlier-perm revision _ _ p rest)
  | inr (w, rest) ↦ inr (subst (Earlier revision) e w, One-perm revision result logs _ _ p rest)
]
One-perm revision result logs _ _ (Permᴰ.swap e f) h = elim h [
  | inl (w, (x, rest)) ↦ inr (subst (Earlier revision) f x, inl (sym e ∙ w, rest))
  | inr (w, inl (x, rest)) ↦ inl (sym f ∙ x, (subst (Earlier revision) e w, rest))
  | inr (w, inr (x, rest)) ↦
      inr (subst (Earlier revision) f x, inr (subst (Earlier revision) e w, rest))
]
One-perm revision result logs _ _ (Permᴰ.trans p q) h =
    One-perm revision result logs _ _ q (One-perm revision result logs _ _ p h)

One-split :
    (revision : ℕ) (result : RunResult) (logs : LogState) (ws : List Write)
    → One revision result logs ws
    → (before after : List Write) × (ws ≡ before ++ Write.finish revision result logs ∷ after)
      × All (Earlier revision) before
      × All (Earlier revision) after
One-split revision result logs [] h = absurd h
One-split revision result logs (w ∷ ws) (inl (e, rest)) = ([], ws, ap (λ v. v ∷ ws) e, tt, rest)
One-split revision result logs (w ∷ ws) (inr (e, rest)) =
    let (before, after, split, hb, ha) = One-split revision result logs ws rest in
    (w ∷ before, after, ap (◌∷◌ w) split, (e, hb), ha)

Earlier-later : (v revision : ℕ) (w : Write) → v ≤ revision → Earlier v w → Earlier revision w
Earlier-later v revision (Write.transition u step now) h (lt, moves) = (omega arith, moves)
Earlier-later v revision (Write.finish u result logs) h e = absurd e

-- What the writes of some calls amount to, where `start` was the revision before them.
abbrev Sent : ℕ → RunInner × List Write → Type 0
Sent start (inner, ws) =
    (is_terminal inner.state ≡ false)
    ⊎ ((result : RunResult) × (logs : LogState) × (inner.state ≡ finished)
        × (inner.result ≡ some result)
        × (inner.cleanup ≡ result.cleanup)
        × (start < inner.revision)
        × One inner.revision result logs ws)

calls-finished :
    (inner : RunInner) (cs : List Call)
    → is_terminal inner.state ≡ true
    → calls inner cs ≡ (inner, [])
unfolding calls transition finish
calls-finished inner [] t = refl
calls-finished inner (transitions step now ∷ cs) t = rw t (calls-finished inner cs t)
calls-finished inner (finishes result logs ∷ cs) t = rw t (calls-finished inner cs t)

calls-Sent :
    (inner : RunInner) (cs : List Call)
    → is_terminal inner.state ≡ false
    → All Moves cs
    → Sent inner.revision (calls inner cs)
unfolding calls transition finish
calls-Sent inner [] t h = inl t
calls-Sent inner (transitions step now ∷ cs) t h =
    let inner₁ = record inner {
      state = step.state;
      cleanup = step.cleanup;
      revision = inner.revision + 1;
      detail = or_kept step.detail inner.detail;
    } in
    rw t (elim (calls-Sent inner₁ cs h.0 h.1) [
      | inl unfinished ↦ inl unfinished
      | inr (result, logs, state, kept, cleanup, lt, one) ↦
          inr (result, logs, state, kept, cleanup, omega arith, inr ((lt, h.0), one))
    ])
calls-Sent inner (finishes result logs ∷ cs) t h =
    let inner₁ = record inner {
      state = finished;
      cleanup = result.cleanup;
      revision = inner.revision + 1;
      result = some result;
    } in
    rw (t, calls-finished inner₁ cs refl)
      (inr (result, logs, refl, refl, refl, omega arith, inl (refl, tt)))

-- The result that is read back: its start is the one that the run's leader was given, where the
-- result has none.
abbrev pub with_start : Option ℕ → Option RunResult → Option RunResult
with_start started none = none
with_start started (some result) =
    some (record result { started_at = or_else result.started_at started })

-- The row behind what `run_get` reads.
row_of :
    (o : Option Row) (r : Row)
    → Option.map record_from_row o ≡ some r
    → (row : Row) × (o ≡ some row) × (record_from_row row ≡ r)
row_of none r e = absurd (cc)
row_of (some row) r e = (row, refl, subst (OnSome (λ q. record_from_row row ≡ q)) e refl)

Finished-with_start :
    (started : Option ℕ) (revision : ℕ) (result : RunResult) (logs : LogState) (row : Row)
    → Finished started revision result logs row
    → (record_from_row row).result ≡ with_start started (some result)
unfolding record_from_row
Finished-with_start started revision result logs row (_, _, kept, _, cleanup, at) =
    rw (kept, cleanup, at) refl

-- A run's record ends as its slot does, with the state, the revision, the result and the cleanup of
-- the slot, once the slot is finished and all of the writes have reached the store, in whatever
-- order: from an unfinished slot and row, where the row is not ahead of the slot, and for any calls
-- on the slot that transition to unfinished states. A result without a start is read back with the
-- start that the row had from the run's leader.
pub calls-durable :
    (s : Store) (id : RunId) (r : Row) (inner : RunInner) (cs : List Call) (arrived : List Write)
    → run_get s id ≡ some r
    → is_terminal r.state ≡ false
    → r.revision ≤ inner.revision
    → is_terminal inner.state ≡ false
    → All Moves cs
    → Permᴰ (calls inner cs).1 arrived
    → is_terminal (calls inner cs).0.state ≡ true
    → let slot = (calls inner cs).0 in
      (r' : Row) × (run_get (writes s id arrived) id ≡ some r')
      × (r'.state ≡ slot.state)
      × (r'.revision ≡ slot.revision)
      × (r'.result ≡ with_start r.started_at slot.result)
      × (r'.cleanup ≡ slot.cleanup)
unfolding run_get record_from_row
calls-durable s id r inner cs arrived e unfinished behind live moves p ended =
    elim (calls-Sent inner cs live moves) [
      | inl t ↦ absurd (cc)
      | inr (result, logs, state, kept, cleanup, lt, one) ↦
          let revision = (calls inner cs).0.revision in
          let (row, found, same) = row_of (find_row s id) r e in
          let (before, after, split, hb, ha) =
            One-split revision result logs arrived (One-perm revision result logs _ _ p one) in
          let still : is_terminal row.state ≡ false =
            ap (λ q. is_terminal q.state) same ∙ unfinished in
          let number : row.revision ≡ r.revision = ap (λ q. q.revision) same in
          let start : row.started_at ≡ r.started_at = ap (λ q. q.started_at) same in
          let (row', at, done) =
            writes-Finished s id row revision result logs before after found still (omega arith) hb
              ha in
          (
            record_from_row row',
            ap (Option.map record_from_row) (ap (λ ws. find_row (writes s id ws) id) split ∙ at),
            done.0 ∙ sym state,
            done.1,
            Finished-with_start row.started_at revision result logs row' done
                ∙ ap (λ o. with_start o (some result)) start
                ∙ ap (with_start r.started_at) (sym kept),
            done.4 ∙ sym cleanup,
          )
    ]
