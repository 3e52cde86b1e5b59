-- ===== src/Scheduler/Policy.antt =====
-- Which request `candidate_index` and `pick_next` of src/runner/scheduler.rs choose.
use wyd.Common.{
  ℕ, zero, suc, ◌≤◌, ◌<◌, ◌≡◌, ap, ◌⊎◌, inl, inr, true, false, Option, none, some, List, ◌∷◌, ◌++◌,
  arith, ◌==◌, Bool-cases, length, get_elem?, take, All, find?-First, min_by_key-Least,
  remove_at-split, length-append,
}
use wyd.Scheduler.{
  Scheduler, Queued, RunId, Duration, slots_free, fits, is_starved, is_idle, oldest,
  candidate_index, admit, pick_next, admit_while,
}

-- How a choice of the queue's entry `i` is justified.
pub data Choice (s : Scheduler) (now : Duration) (o : Option ℕ) : Type 0 where
  full : slots_free s ≡ 0 → o ≡ none → Choice s now o
  nothing_fits : All (λ b. fits s b ≡ false) s.queue → o ≡ none → Choice s now o
  first_starved :
      (i : ℕ) (q : Queued)
      → o ≡ some i
      → get_elem? s.queue i ≡ some q
      → 0 < slots_free s
      → is_starved s now q ≡ true
      → All (λ b. is_starved s now b ≡ false) (take i s.queue)
      → Choice s now o
  oldest_idle :
      (i : ℕ) (q : Queued)
      → o ≡ some i
      → get_elem? s.queue i ≡ some q
      → 0 < slots_free s
      → is_idle s q ≡ true
      → All (λ b. is_starved s now b ≡ false) s.queue
      → All (λ b. is_idle s b ≡ true → q.enqueued_at ≤ b.enqueued_at) s.queue
      → All (λ b. is_idle s b ≡ true → q.enqueued_at < b.enqueued_at) (take i s.queue)
      → Choice s now o
  oldest_fitting :
      (i : ℕ) (q : Queued)
      → o ≡ some i
      → get_elem? s.queue i ≡ some q
      → 0 < slots_free s
      → fits s q ≡ true
      → All (λ b. is_starved s now b ≡ false) s.queue
      → All (λ b. is_idle s b ≡ false) s.queue
      → All (λ b. fits s b ≡ true → q.enqueued_at ≤ b.enqueued_at) s.queue
      → All (λ b. fits s b ≡ true → q.enqueued_at < b.enqueued_at) (take i s.queue)
      → Choice s now o

-- `candidate_index` chooses nothing if no slot is free or nothing fits. Otherwise it chooses the
-- first request in the queue that has starved and fits; if there is none, the oldest that fits of
-- a project with no running run; if there is none, the oldest that fits (of equally old ones, the
-- first in the queue).
pub candidate_index-Choice : (s : Scheduler) (now : Duration) → Choice s now (candidate_index s now)
unfolding candidate_index oldest
candidate_index-Choice s now = elim (Bool-cases (slots_free s == 0)) [
  | inl e ↦ full (ground arith) (rw e)
  | inr e ↦ elim (find?-First (is_starved s now) 0 s.queue) [
    | inr (i, q, o, at, st, before) ↦
        first_starved i q (rw (e, o) (ap some (omega arith))) at (ground arith) st before
    | inl (o, unstarved) ↦ elim (min_by_key-Least (is_idle s) (λ q. q.enqueued_at) 0 s.queue) [
      | inr (i, q, o', at, id, least, before) ↦
          oldest_idle i q (rw (e, o, o') (ap some (omega arith))) at (ground arith) id unstarved
            least before
      | inl (o', busy) ↦ elim (min_by_key-Least (fits s) (λ q. q.enqueued_at) 0 s.queue) [
        | inr (i, q, o'', at, f, least, before) ↦
            oldest_fitting i q (rw (e, o, o', o'') (ap some (omega arith))) at (ground arith) f
              unstarved busy least before
        | inl (o'', none_fits) ↦ nothing_fits none_fits (rw (e, o, o', o''))
      ]
    ]
  ]
]

-- What a choice says of the request: it fits, a slot is free, and the rest of the queue is left.
abbrev pub Picks : Scheduler → Option (RunId × Scheduler) → Type 0
Picks s o =
    (i : ℕ) × (q : Queued) × (back : List Queued) × (o
      ≡ some (q.id, admit s q (take i s.queue ++ back)))
    × (s.queue ≡ take i s.queue ++ q ∷ back)
    × (0 < slots_free s)
    × (fits s q ≡ true)

starved-fits :
    (s : Scheduler) (now : Duration) (q : Queued) → is_starved s now q ≡ true → fits s q ≡ true
unfolding is_starved
starved-fits s now q h = ground arith

idle-fits : (s : Scheduler) (q : Queued) → is_idle s q ≡ true → fits s q ≡ true
unfolding is_idle
idle-fits s q h = ground arith

picks :
    (s : Scheduler) (now : Duration) (i : ℕ) (q : Queued)
    → candidate_index s now ≡ some i
    → get_elem? s.queue i ≡ some q
    → 0 < slots_free s
    → fits s q ≡ true
    → Picks s (pick_next s now)
unfolding pick_next
picks s now i q c at free f =
    let (back, o, split) = remove_at-split i s.queue q at in
    (i, q, back, rw (c, pick_next) (rw o), split, free, f)

-- `pick_next` admits one request that fits into a free slot and takes it from the queue; it admits
-- nothing only if no slot is free or no request fits.
pub pick_next-cases :
    (s : Scheduler) (now : Duration)
    → ((pick_next s now ≡ none) × ((slots_free s ≡ 0) ⊎ All (λ b. fits s b ≡ false) s.queue))
      ⊎ Picks s (pick_next s now)
unfolding pick_next
pick_next-cases s now = elim (candidate_index-Choice s now) [
  | full z o ↦ inl (rw (o, pick_next), inl z)
  | nothing_fits n o ↦ inl (rw (o, pick_next), inr n)
  | first_starved i q o at free st before ↦
      inr (picks s now i q o at free (starved-fits s now q st))
  | oldest_idle i q o at free id un least before ↦
      inr (picks s now i q o at free (idle-fits s q id))
  | oldest_fitting i q o at free f un busy least before ↦ inr (picks s now i q o at free f)
]

-- What every admitted request keeps, the loop of `release` keeps.
pub admit_while-keeps {κ} :
    (P : Scheduler → Type κ)
    → ((s : Scheduler) (q : Queued) (front back : List Queued)
        → s.queue ≡ front ++ q ∷ back
        → 0 < slots_free s
        → fits s q ≡ true
        → P s
        → P (admit s q (front ++ back)))
    → (fuel : ℕ) (s : Scheduler) (now : Duration) → P s
    → P (admit_while fuel s now).0
unfolding admit_while
admit_while-keeps P keep zero s now h = h
admit_while-keeps P keep (suc fuel) s now h = elim (pick_next-cases s now) [
  | inl (o, _) ↦ rw (o, admit_while) h
  | inr (i, q, back, o, split, free, f) ↦
      rw (o, admit_while)
        (admit_while-keeps P keep fuel (admit s q (take i s.queue ++ back)) now
          (keep s q (take i s.queue) back split free f h))
]

-- With more fuel than queued requests the loop ends by its test: then no slot is free, or nothing
-- that waits fits.
pub admit_while-exhausts :
    (fuel : ℕ) (s : Scheduler) (now : Duration)
    → length s.queue < fuel
    → let t = (admit_while fuel s now).0 in (slots_free t ≡ 0) ⊎ All (λ b. fits t b ≡ false) t.queue
unfolding admit_while
admit_while-exhausts zero s now h = absurd (omega arith)
admit_while-exhausts (suc fuel) s now h = elim (pick_next-cases s now) [
  | inl (o, stuck) ↦ rw (o, admit_while) stuck
  | inr (i, q, back, o, split, free, f) ↦
      rw (o, admit_while)
        (admit_while-exhausts fuel (admit s q (take i s.queue ++ back)) now (
          omega (
            arith,
            ap length split,
            length-append (take i s.queue) (q ∷ back),
            length-append (take i s.queue) back,
          )))
]
