-- ===== src/Scheduler/Usage.antt =====
-- What src/runner/scheduler.rs reports to clients: the usage of each project, and why a request
-- waits.
use wyd.Common.{
  ℕ, zero, suc, ◌+◌, ◌≤◌, ◌<◌, ◌≡◌, refl, ap, ◌∙◌, ◌⊎◌, inl, inr, false, str_eq, str_eq_iff, some,
  List, [], ◌∷◌, arith, ◌==◌, if◌then◌else◌, Bool-cases, length, get_elem?, retain, All,
  All-get_elem?, String, u64, total, enumerate_from, map, max, min,
}
use wyd.Scheduler.{
  Scheduler, Queued, Running, Duration, of_project, slots_free, project_slots_free, fits, reserved,
}
use wyd.Scheduler.View.{
  ProjectUsage, count_run, count_runs, insert_by_project, sort_by_project, projects, Reason,
  project_full, all_busy, no_memory, QueueEntry, queue_entry, queue_entries,
}

-- The runs that a report counts for one project.
abbrev pub reported : String → List ProjectUsage → ℕ
reported p = total (λ u. if str_eq u.project p then u.running else 0)

reported-count_run :
    (p : String) (out : List ProjectUsage) (r : Running)
    → reported p (count_run out r) ≡ reported p out + (if str_eq r.project p then 1 else 0)
unfolding count_run
reported-count_run p [] r = ground arith
reported-count_run p (u ∷ out) r =
    ground (arith, str_eq_iff u.project r.project, reported-count_run p out r)

reported-count_runs :
    (p : String) (out : List ProjectUsage) (rs : List Running)
    → reported p (count_runs out rs) ≡ reported p out + length (of_project p rs)
unfolding count_runs retain
reported-count_runs p out [] = omega arith
reported-count_runs p out (r ∷ rs) =
    ground (arith, reported-count_run p out r, reported-count_runs p (count_run out r) rs)

reported-insert :
    (p : String) (u : ProjectUsage) (out : List ProjectUsage)
    → reported p (insert_by_project u out) ≡ reported p (u ∷ out)
unfolding insert_by_project
reported-insert p u [] = refl
reported-insert p u (q ∷ out) = ground (arith, reported-insert p u out)

reported-sort :
    (p : String) (out : List ProjectUsage) → reported p (sort_by_project out) ≡ reported p out
unfolding sort_by_project
reported-sort p [] = refl
reported-sort p (u ∷ out) =
    omega (arith, reported-insert p u (sort_by_project out), reported-sort p out)

-- The entries of one project.
abbrev pub entries_of : String → List ProjectUsage → ℕ
entries_of p = total (λ u. if str_eq u.project p then 1 else 0)

entries_of-count_run :
    (p : String) (out : List ProjectUsage) (r : Running)
    → entries_of p (count_run out r)
      ≡ (if str_eq r.project p then max 1 (entries_of p out) else entries_of p out)
unfolding count_run
entries_of-count_run p [] r = ground arith
entries_of-count_run p (u ∷ out) r = ground (
  arith,
  str_eq_iff u.project r.project,
  str_eq_iff r.project p,
  str_eq_iff u.project p,
  entries_of-count_run p out r,
)

entries_of-count_runs :
    (p : String) (out : List ProjectUsage) (rs : List Running)
    → entries_of p out ≤ 1
    → entries_of p (count_runs out rs) ≡ min 1 (entries_of p out + length (of_project p rs))
unfolding count_runs retain
entries_of-count_runs p out [] h = omega arith
entries_of-count_runs p out (r ∷ rs) h =
    ground (arith, entries_of-count_run p out r, entries_of-count_runs p (count_run out r) rs)

entries_of-insert :
    (p : String) (u : ProjectUsage) (out : List ProjectUsage)
    → entries_of p (insert_by_project u out) ≡ entries_of p (u ∷ out)
unfolding insert_by_project
entries_of-insert p u [] = refl
entries_of-insert p u (q ∷ out) = ground (arith, entries_of-insert p u out)

entries_of-sort :
    (p : String) (out : List ProjectUsage) → entries_of p (sort_by_project out) ≡ entries_of p out
unfolding sort_by_project
entries_of-sort p [] = refl
entries_of-sort p (u ∷ out) =
    omega (arith, entries_of-insert p u (sort_by_project out), entries_of-sort p out)

-- `projects` has one entry for each project with a running run and none for any other, and the
-- entry counts exactly the project's running runs.
projects-of_project :
    (s : Scheduler) (p : String)
    → (entries_of p (projects s) ≡ min 1 (length (of_project p s.running)))
      × (reported p (projects s) ≡ length (of_project p s.running))
unfolding projects
projects-of_project s p = (
  omega (arith, entries_of-sort p (count_runs [] s.running), entries_of-count_runs p [] s.running),
  omega (arith, reported-sort p (count_runs [] s.running), reported-count_runs p [] s.running),
)

-- What a reported reason says of the request.
abbrev pub Explains : Scheduler → Queued → Reason → Type 0
Explains s q project_full = project_slots_free s q.project ≡ 0
Explains s q all_busy = (slots_free s ≡ 0) × (0 < project_slots_free s q.project)
Explains s q no_memory =
    (0 < slots_free s)
    × (0 < project_slots_free s q.project)
    × (s.memory_budget_bytes < u64 (reserved s + q.memory_bytes))

entry-Explains :
    (s : Scheduler) (now : Duration) (i : ℕ) (q : Queued)
    → (slots_free s ≡ 0) ⊎ (fits s q ≡ false)
    → Explains s q (queue_entry s now (i, q)).reason
unfolding queue_entry fits
entry-Explains s now i q h = elim (Bool-cases (project_slots_free s q.project == 0)) [
  | inl e ↦ rw e (ground arith)
  | inr e ↦ elim (Bool-cases (slots_free s == 0)) [
    | inl f ↦ rw (e, f) (ground arith)
    | inr f ↦ rw (e, f) (ground arith)
  ]
]

entries-get :
    (s : Scheduler) (now : Duration) (k i : ℕ) (queue : List Queued) (q : Queued)
    → get_elem? queue i ≡ some q
    → get_elem? (map (queue_entry s now) (enumerate_from k queue)) i
      ≡ some (queue_entry s now (k + i, q))
unfolding enumerate_from
entries-get s now k i [] q at = absurd (cc)
entries-get s now k zero (x ∷ queue) q at = ground arith
entries-get s now k (suc i) (x ∷ queue) q at =
    entries-get s now (suc k) i queue q at ∙ ap (λ n. some (queue_entry s now (n, q))) (omega arith)

-- While nothing that waits can be admitted, the entry of a waiting request stands at its place in the queue, has that place as its 1-based position, and
-- gives a true reason: its project is at its limit, all slots are busy, or its memory does not fit
-- into what the budget has left.
queue_entries-explain :
    (s : Scheduler) (now : Duration) (i : ℕ) (q : Queued)
    → (slots_free s ≡ 0) ⊎ All (λ b. fits s b ≡ false) s.queue
    → get_elem? s.queue i ≡ some q
    → (e : QueueEntry) × (get_elem? (queue_entries s now) i ≡ some e)
      × (e.position ≡ i + 1)
      × (e.run_id ≡ q.id)
      × Explains s q e.reason
unfolding queue_entries queue_entry
queue_entries-explain s now i q stuck at = (
  queue_entry s now (i, q),
  entries-get s now 0 i s.queue q at ∙ ap (λ n. some (queue_entry s now (n, q))) (omega arith),
  refl,
  refl,
  entry-Explains s now i q (blocked stuck),
)
  where
    blocked :
        (slots_free s ≡ 0) ⊎ All (λ b. fits s b ≡ false) s.queue
        → (slots_free s ≡ 0) ⊎ (fits s q ≡ false)
    blocked (inl z) = inl z
    blocked (inr n) = inr (All-get_elem? (λ b. fits s b ≡ false) s.queue i q n at)
