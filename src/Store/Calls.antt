-- ===== src/Store/Calls.antt =====
-- The calls that change the tables of runs of src/store.rs, in any order, and what they leave of the
-- row that a request was given.
use mathlib.Core.Option
use wyd.Common.{
  ℕ, suc, ◌+◌, ◌-◌, ◌≤◌, ◌<◌, ◌≡◌, refl, ap, ◌∙◌, sym, inl, inr, Bool, true, false, not, ◌&&◌,
  Option, none, some, List, [], ◌∷◌, arith, ltb, ◌==◌, ==_iff, if◌then◌else◌, is_some, find?,
  retain, retain-All, All, Bool-cases, Option-cases, String,
}
use wyd.Identity.{ProcessIdentity}
use wyd.Logs.{LogState}
use wyd.Run.{is_terminal, Bytes, RunSpec}
use wyd.Grouping.Collapse.{bytes_eq-eq}
use wyd.Store.{
  RunId, Row, RunResult, RunStep, Store, update, bytes_eq, recent, request_id_window, run_insert,
  run_event, run_transition, run_set_leader, run_finish, run_prune, is_old,
}

pub data Call : Type 0 where
  inserts : RunSpec → String → ℕ → Call
  transitions : RunId → ℕ → RunStep → ℕ → Call
  leads : RunId → ProcessIdentity → ℕ → Call
  finishes : RunId → ℕ → RunResult → LogState → Call
  records : RunId → ℕ → String → Option String → ℕ → Call
  prunes : ℕ → Call

-- Calls while the window of a request made at that time lasts, and that prune older runs only.
abbrev pub Within : ℕ → Call → Type 0
Within at (inserts spec supervisor now) = now ≤ at + request_id_window
Within at (prunes before) = before ≤ at
Within at _ = Unit

unfoldable pub call : (Bytes → ℕ) → Call → Store → Store
call blake3 (inserts spec supervisor now) s = (run_insert blake3 s spec supervisor now).0
call blake3 (transitions id revision step now) s = (run_transition s id revision step now).0
call blake3 (leads id leader started_at) s = run_set_leader s id leader started_at
call blake3 (finishes id revision result logs) s = (run_finish s id revision result logs).0
call blake3 (records id revision kind detail now) s = run_event s id revision kind detail now
call blake3 (prunes before) s = (run_prune s before).0

unfoldable pub calls : (Bytes → ℕ) → List Call → Store → Store
calls blake3 [] s = s
calls blake3 (c ∷ cs) s = calls blake3 cs (call blake3 c s)

-- What of a row tells whose it is.
abbrev pub Ours : RunId → ℕ → ℕ → Row → Type 0
Ours id digest at r = (r.id ≡ id) × (r.fingerprint ≡ digest) × (r.created_at ≡ at)

-- The request id finds that run in every window that has begun by then, no other run has its key, and
-- its key is not given again.
abbrev pub Held : Bytes → RunId → ℕ → ℕ → List Row → RunId → Type 0
Held request id digest at rows next =
    ((start : ℕ)
      → start ≤ at
      → (r : Row) × (recent request start rows ≡ some r) × Ours id digest at r)
    × All (λ r. r.id ≡ id → r.created_at ≡ at) rows
    × (id < next)

find-update :
    (p q : Row → Bool) (f : Row → Row) (rows : List Row)
    → ((r : Row) → p (f r) ≡ p r)
    → find? p (update q f rows) ≡ Option.map (λ r. if q r then f r else r) (find? p rows)
unfolding find? update
find-update p q f [] same = refl
find-update p q f (r ∷ rows) same =
    let kept : p (if q r then f r else r) ≡ p r = ground (arith, same r) in
    elim (Bool-cases (p r)) [
      | inl e ↦ rw (kept, e) refl
      | inr e ↦ rw (kept, e) (find-update p q f rows same)
    ]

find-retain :
    (p q : Row → Bool) (rows : List Row) (r : Row)
    → find? p rows ≡ some r
    → q r ≡ true
    → find? p (retain q rows) ≡ some r
unfolding find? retain
find-retain p q [] r e h = e
find-retain p q (x ∷ rows) r e h = elim (Bool-cases (p x)) [
  | inl hit ↦
      let found : find? p (x ∷ rows) ≡ some x = rw hit refl in
      let stays : q x ≡ true =
        ap (λ o. elim o as (λ _. Bool) [ none ↦ true | some y ↦ q y ]) (sym found ∙ e) ∙ h in
      rw (stays, hit) (sym found ∙ e)
  | inr miss ↦
      let rest : find? p (x ∷ rows) ≡ find? p rows = rw miss refl in
      elim (Bool-cases (q x)) [
        | inl t ↦ rw (t, miss) (find-retain p q rows r (sym rest ∙ e) h)
        | inr t ↦ rw t (find-retain p q rows r (sym rest ∙ e) h)
      ]
]

update-All :
    (P : Row → Type 0) (q : Row → Bool) (f : Row → Row) (rows : List Row)
    → ((r : Row) → P r → P (f r))
    → All P rows
    → All P (update q f rows)
unfolding update
update-All P q f [] keep h = tt
update-All P q f (r ∷ rows) keep h = elim (Bool-cases (q r)) [
  | inl e ↦ rw e (keep r h.0, update-All P q f rows keep h.1)
  | inr e ↦ rw e (h.0, update-All P q f rows keep h.1)
]

either-row : (P : Row → Type 0) (b : Bool) (r t : Row) → P r → P t → P (if b then r else t)
either-row P true r t h k = h
either-row P false r t h k = k

-- What an update leaves as it is.
abbrev Keeps : (Row → Row) → Type 0
Keeps f =
    (r : Row)
    → ((f r).id ≡ r.id)
      × ((f r).fingerprint ≡ r.fingerprint)
      × ((f r).spec ≡ r.spec)
      × ((f r).created_at ≡ r.created_at)

-- No row that is old has the key of one that is not.
young :
    (id : RunId) (at before : ℕ) (rows : List Row)
    → before ≤ at
    → All (λ r. r.id ≡ id → r.created_at ≡ at) rows
    → find? (λ o. o.id == id) (retain (is_old before) rows) ≡ none
unfolding find? retain
young id at before [] h times = refl
young id at before (r ∷ rows) h times = elim (Bool-cases (is_old before r)) [
  | inr e ↦ rw e (young id at before rows h times.1)
  | inl e ↦ elim (Bool-cases (r.id == id)) [
    | inr n ↦ rw (e, n) (young id at before rows h times.1)
    | inl n ↦
        let born : r.created_at ≡ at = times.0 ((==_iff r.id id).0 n) in
        let due : ltb r.created_at before ≡ true = ground arith in absurd (ground arith)
  ]
]

module _ (request : Bytes) (id : RunId) (digest at : ℕ) where
  update-Held :
      (q : Row → Bool) (f : Row → Row) (rows : List Row) (next : RunId)
      → Keeps f
      → Held request id digest at rows next
      → Held request id digest at (update q f rows) next
  unfolding recent
  update-Held q f rows next same (found, times, later) = (
    λ start begun.
        let (r, e, ours) = found start begun in
        (
          if q r then f r else r,
          find-update _ q f rows
                (λ x. let (_, _, spec, created) = same x in rw (spec, created) refl)
              ∙ ap (Option.map (λ x. if q x then f x else x)) e,
          either-row (Ours id digest at) (q r) (f r) r
              (let (i, d, _, c) = same r in (i ∙ ours.0, d ∙ ours.1, c ∙ ours.2)) ours,
        ),
    update-All _ q f rows (λ r h e. let (i, _, _, c) = same r in c ∙ h (sym i ∙ e)) times,
    later,
  )

  push-Held :
      (r : Row) (rows : List Row) (next : RunId)
      → bytes_eq r.spec.request_id request ≡ false
      → r.id ≡ next
      → Held request id digest at rows next
      → Held request id digest at (r ∷ rows) (suc next)
  unfolding recent find?
  push-Held r rows next other key (found, times, later) = (
    λ start begun. let (x, e, ours) = found start begun in (x, rw other e, ours),
    ((λ e. absurd (omega (arith, e, key, later))), times),
    omega (arith, later),
  )

  prune-Held :
      (s : Store) (before : ℕ)
      → before ≤ at
      → Held request id digest at s.runs s.next_id
      → Held request id digest at (run_prune s before).0.runs (run_prune s before).0.next_id
  unfolding recent run_prune
  prune-Held s before h (found, times, later) =
      let kept : Row → Bool =
        λ r. not (is_some (find? (λ o. o.id == r.id) (retain (is_old before) s.runs))) in
      (
        λ start begun.
            let (r, e, ours) = found start begun in
            let gone : find? (λ o. o.id == r.id) (retain (is_old before) s.runs) ≡ none =
              ap (λ i. find? (λ o. o.id == i) (retain (is_old before) s.runs)) ours.0
              ∙ young id at before s.runs h times in
            (r, find-retain _ kept s.runs r e (ap (λ o. not (is_some o)) gone), ours),
        retain-All _ kept s.runs times,
        later,
      )

  either-store :
      (b : Bool) (x y : Store × Bool)
      → Held request id digest at x.0.runs x.0.next_id
      → Held request id digest at y.0.runs y.0.next_id
      → Held request id digest at (if b then x else y).0.runs (if b then x else y).0.next_id
  either-store true x y h k = h
  either-store false x y h k = k

  module _ (blake3 : Bytes → ℕ) where
    pub insert-Held :
        (s : Store) (spec : RunSpec) (supervisor : String) (now : ℕ)
        → now ≤ at + request_id_window
        → Held request id digest at s.runs s.next_id
        → Held request id digest at
            (run_insert blake3 s spec supervisor now).0.runs
            (run_insert blake3 s spec supervisor now).0.next_id
    unfolding run_insert
    insert-Held s spec supervisor now soon held =
        elim (Option-cases (recent spec.request_id (now - request_id_window) s.runs)) [
          | inr (row, e) ↦ rw (e, run_insert) held
          | inl e ↦
              rw (e, run_insert)
                (elim (Bool-cases (bytes_eq spec.request_id request)) [
                  | inr other ↦ push-Held _ s.runs s.next_id other refl held
                  | inl same ↦
                      let (r, found, _) = held.0 (now - request_id_window) (omega (arith, soon)) in
                      let none_found : recent request (now - request_id_window) s.runs ≡ none =
                        ap (λ k. recent k (now - request_id_window) s.runs)
                          (sym (bytes_eq-eq spec.request_id request same))
                        ∙ e in
                      absurd (cc (found, none_found))
                ])
        ]

    call-Held :
        (c : Call) (s : Store)
        → Within at c
        → Held request id digest at s.runs s.next_id
        → Held request id digest at (call blake3 c s).runs (call blake3 c s).next_id
    unfolding call run_transition run_set_leader run_finish run_event
    call-Held (inserts spec supervisor now) s ok held = insert-Held s spec supervisor now ok held
    call-Held (transitions i revision step now) s ok held =
        either-store (is_some (find? (λ (r : Row). r.id == i && ltb r.revision revision) s.runs)) _
          _ (update-Held _ _ s.runs s.next_id (λ r. (refl, refl, refl, refl)) held) held
    call-Held (leads i leader started_at) s ok held =
        update-Held _ _ s.runs s.next_id (λ r. (refl, refl, refl, refl)) held
    call-Held (finishes i revision result logs) s ok held =
        either-store (is_some (find? (λ (r : Row). r.id == i && not (is_terminal r.state)) s.runs))
          _ _ (update-Held _ _ s.runs s.next_id (λ r. (refl, refl, refl, refl)) held) held
    call-Held (records i revision kind detail now) s ok held = held
    call-Held (prunes before) s ok held = prune-Held s before ok held

    pub calls-Held :
        (cs : List Call) (s : Store)
        → All (Within at) cs
        → Held request id digest at s.runs s.next_id
        → Held request id digest at (calls blake3 cs s).runs (calls blake3 cs s).next_id
    unfolding calls
    calls-Held [] s ok held = held
    calls-Held (c ∷ cs) s ok held = calls-Held cs (call blake3 c s) ok.1 (call-Held c s ok.0 held)
