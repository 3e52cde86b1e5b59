-- ===== src/Scheduler/Budget.antt =====
-- The caps and the memory budget of src/runner/scheduler.rs: what admitting one request and
-- ending one run keep of them.
use wyd.Common.{
  ℕ, ◌+◌, ◌^◌, ◌≤◌, ◌<◌, ◌≡◌, ap, ◌∙◌, subst, inl, inr, Bool, true, false, not, String, str_eq,
  str_eq_iff, length-retain-retain_le, List, [], ◌∷◌, ◌++◌, arith, leb, ◌==◌, if◌then◌else◌,
  Bool-cases, Option-cases, length, retain, find?, total-retain-find?, All, All-append,
  All-append_left, All-append_right, total, total-append, sum_u64-eq, u64-eq_of_lt, length-append,
  length-retain_le, total-retain_le, u64,
}
use wyd.Scheduler.{
  Scheduler, Queued, Running, RunId, of_project, slots_free, project_slots_free, reserved, fits,
  admit, take_off,
}

abbrev pub memory : List Running → ℕ
memory = total (λ r. r.memory_bytes)

-- A budget under 8 EiB, so that adding a reservation to it does not wrap.
pub record Inv (s : Scheduler) : Type 0 where
  pub budget_fits : s.memory_budget_bytes < 2 ^ 63
  pub parallel : length s.running ≤ s.max_parallel
  pub per_project : (p : String) → length (of_project p s.running) ≤ s.max_parallel_per_project
  pub within_budget : memory s.running + memory s.held ≤ s.memory_budget_bytes
  pub queue_bounded : length s.queue ≤ s.max_queued
  pub queued_possible : All (λ q. q.memory_bytes ≤ s.memory_budget_bytes) s.queue

-- Under the invariant `reserved` is the exact sum, and the budget test does not wrap.
pub reserved-eq : (s : Scheduler) → Inv s → reserved s ≡ memory s.running + memory s.held
unfolding reserved
reserved-eq s v =
    let both = total-append (λ (r : Running). r.memory_bytes) s.running s.held in
    sum_u64-eq _ (s.running ++ s.held) (omega (arith, both)) ∙ both

pub length-of_project-put :
    (p : String) (rs : List Running) (r : Running)
    → length (of_project p (rs ++ r ∷ []))
      ≡ length (of_project p rs) + (if str_eq r.project p then 1 else 0)
unfolding retain
length-of_project-put p [] r = ground arith
length-of_project-put p (x ∷ rs) r = ground (arith, length-of_project-put p rs r)

-- The caps after one more run has been put into `running`.
module _ (s : Scheduler) (r : Running) (v : Inv s) where
  abbrev pub HasRoom : Type 0
  HasRoom =
      (0 < slots_free s)
      × (0 < project_slots_free s r.project)
      × (leb (u64 (reserved s + r.memory_bytes)) s.memory_budget_bytes ≡ true)

  pub put_parallel : HasRoom → length (s.running ++ r ∷ []) ≤ s.max_parallel
  unfolding slots_free
  put_parallel h = omega (arith, length-append s.running (r ∷ []))

  pub put_per_project :
      HasRoom
      → (p : String) → length (of_project p (s.running ++ r ∷ [])) ≤ s.max_parallel_per_project
  unfolding project_slots_free
  put_per_project h p =
      rw (length-of_project-put p s.running r) (elim (Bool-cases (str_eq r.project p)) [
        | inl e ↦ rw e (
            subst (λ n. length (of_project n s.running) + 1 ≤ s.max_parallel_per_project)
              ((str_eq_iff r.project p).0 e) (omega arith))
        | inr e ↦ rw e (omega (arith, v.per_project p))
      ])

  pub put_within_budget :
      HasRoom
      → r.memory_bytes ≤ s.memory_budget_bytes
      → memory (s.running ++ r ∷ []) + memory s.held ≤ s.memory_budget_bytes
  put_within_budget h m = ground (
    arith,
    reserved-eq s v,
    u64-eq_of_lt (reserved s + r.memory_bytes),
    total-append (λ (x : Running). x.memory_bytes) s.running (r ∷ []),
  )

pub admit-Inv :
    (s : Scheduler) (q : Queued) (front back : List Queued)
    → s.queue ≡ front ++ q ∷ back
    → 0 < slots_free s
    → fits s q ≡ true
    → Inv s
    → Inv (admit s q (front ++ back))
unfolding fits
admit-Inv s q front back split free f v = record {
  budget_fits = v.budget_fits;
  parallel = put_parallel s r v room;
  per_project = put_per_project s r v room;
  within_budget = put_within_budget s r v room (All-append_right P front (q ∷ back) possible).0;
  queue_bounded = omega (
    arith,
    v.queue_bounded,
    ap length split,
    length-append front (q ∷ back),
    length-append front back,
  );
  queued_possible =
      All-append P front back (All-append_left P front (q ∷ back) possible)
        (All-append_right P front (q ∷ back) possible).1;
}
  where
    r : Running
    r = record { id = q.id; project = q.project; memory_bytes = q.memory_bytes }

    P : Queued → Type 0
    P x = x.memory_bytes ≤ s.memory_budget_bytes

    possible : All P (front ++ q ∷ back)
    possible = subst (All P) split v.queued_possible

    room : HasRoom s r v
    room = ground arith

held_within_budget :
    (s : Scheduler) (id : RunId) (hold : Bool)
    → Inv s
    → memory (take_off s id hold).running + memory (take_off s id hold).held ≤ s.memory_budget_bytes
unfolding take_off
held_within_budget s id false v = omega (
  arith,
  v.within_budget,
  total-retain_le (λ (r : Running). r.memory_bytes) (λ r. not (r.id == id)) s.running,
)
held_within_budget s id true v = elim (Option-cases (find? (λ r. r.id == id) s.running)) [
  | inl e ↦
      rw (e, take_off)
        (omega (
          arith,
          v.within_budget,
          total-retain_le (λ (r : Running). r.memory_bytes) (λ r. not (r.id == id)) s.running,
        ))
  | inr (r, e) ↦
      rw (e, take_off)
        (omega (
          arith,
          v.within_budget,
          total-retain-find? (λ (x : Running). x.memory_bytes) (λ x. x.id == id) s.running r e,
          total-append (λ (x : Running). x.memory_bytes) s.held (r ∷ []),
        ))
]

pub take_off-Inv : (s : Scheduler) (id : RunId) (hold : Bool) → Inv s → Inv (take_off s id hold)
unfolding take_off
take_off-Inv s id hold v = record {
  budget_fits = v.budget_fits;
  parallel = omega (arith, length-retain_le (λ r. not (r.id == id)) s.running, v.parallel);
  per_project = λ p. omega (
    arith,
    v.per_project p,
    length-retain-retain_le (λ r. str_eq r.project p) (λ r. not (r.id == id)) s.running,
  );
  within_budget = held_within_budget s id hold v;
  queue_bounded = v.queue_bounded;
  queued_possible = v.queued_possible;
}
