-- ===== src/Scheduler/Starvation.antt =====
-- The starvation rule of src/runner/scheduler.rs helps a request that fits. One that needs more
-- memory than is free is passed by for as long as small runs keep arriving.
use wyd.Common.{
  ℕ, zero, suc, ◌+◌, ◌^◌, ◌≤◌, ◌<◌, ◌≡◌, ap, ◌∙◌, subst, inl, inr, false, str_eq_iff, none, List,
  [], ◌∷◌, arith, take, retain, All, All-append_right, String, sum_u64_from,
}
use wyd.Scheduler.{
  Limits, Scheduler, Queued, RunId, Duration, slots_free, project_slots_free, reserved, fits,
  can_admit, admit_while, pick_next, submit, take_off, release,
}
use wyd.Scheduler.Policy.{pick_next-cases}
use wyd.Scheduler.Invariant.{Call, submits, releases, step, run}

pick_next-nothing :
    (s : Scheduler) (now : Duration) → All (λ b. fits s b ≡ false) s.queue → pick_next s now ≡ none
pick_next-nothing s now h = elim (pick_next-cases s now) [
  | inl (o, _) ↦ o
  | inr (i, q, back, o, split, free, f) ↦ absurd (
      cc
        (All-append_right (λ b. fits s b ≡ false) (take i s.queue) (q ∷ back)
          (subst (All (λ b. fits s b ≡ false)) split h)).0)
]

-- Small runs of memory `a` in a project `p`, and a request `b` that does not fit beside one.
module _ (l : Limits) (b : Queued) (p : String) (a : ℕ) where
  pub record Crowded : Type 0 where
    pub parallel : 1 < l.max_parallel
    pub per_project : 1 < l.max_parallel_per_project
    pub two_fit : a + a ≤ l.memory_budget_bytes
    pub not_beside : l.memory_budget_bytes < a + b.memory_bytes
    pub possible : b.memory_bytes ≤ l.memory_budget_bytes
    pub budget_fits : l.memory_budget_bytes < 2 ^ 63

  -- The small run `k` is running, and `b` waits.
  abbrev pub crowd : RunId → Scheduler
  crowd k = record {
    limits = l;
    running = record { id = k; project = p; memory_bytes = a } ∷ [];
    queue = b ∷ [];
    held = [];
  }

  abbrev both : RunId → Scheduler
  both k = record {
    limits = l;
    running =
        record { id = k; project = p; memory_bytes = a }
        ∷ record { id = suc k; project = p; memory_bytes = a }
        ∷ [];
    queue = b ∷ [];
    held = [];
  }

  -- In each of `n` rounds the next small run is submitted, and the one before it ends.
  abbrev pub churn : (ℕ → Duration) → ℕ → ℕ → List Call
  churn at k zero = []
  churn at k (suc n) =
      submits (suc k) p a none (at k) ∷ releases k false (at k) ∷ churn at (suc k) n

  starts : Crowded → (k now : ℕ) → step (crowd k) (submits (suc k) p a none now) ≡ both k
  unfolding step submit can_admit slots_free project_slots_free reserved retain sum_u64_from
  starts c k now = ground (arith, str_eq_iff p p)

  too_big : Crowded → (k : ℕ) → fits (crowd k) b ≡ false
  unfolding fits reserved sum_u64_from
  too_big c k = ground arith

  ends : Crowded → (k now : ℕ) → step (both k) (releases k false now) ≡ crowd (suc k)
  unfolding step release take_off retain admit_while
  ends c k now = ground (arith, pick_next-nothing (crowd (suc k)) now (too_big c (suc k), tt))

  bypassed : Crowded → (at : ℕ → Duration) (n k : ℕ) → run (crowd k) (churn at k n) ≡ crowd (k + n)
  unfolding run
  bypassed c at zero k = ap crowd (omega arith)
  bypassed c at (suc n) k =
      ap (λ s. run (step s (releases k false (at k))) (churn at (suc k) n)) (starts c k (at k))
      ∙ ap (λ s. run s (churn at (suc k) n)) (ends c k (at k))
      ∙ bypassed c at n (suc k)
      ∙ ap crowd (omega arith)

  -- Where the slots and a budget under 8 EiB hold two small runs of one project, and the budget holds
  -- the waiting request but not beside a small run: however many rounds of small runs there are, and
  -- however long after its arrival each round takes place, every small run is started at once and the waiting request never is: after `n`
  -- rounds the small run `n` is running, and the request waits as before.
  pub starved_bypassed :
      Crowded → (at : ℕ → Duration) (n : ℕ) → run (crowd 0) (churn at 0 n) ≡ crowd n
  starved_bypassed c at n = bypassed c at n 0 ∙ ap crowd (omega arith)
