-- ===== src/Logs/Bounds.antt =====
-- What reaches a run's output file through `LogSink::write_all_bounded` of src/runner/logs.rs while
-- other sinks take from the shared budget and give back to it.
use wyd.Common.{
  ℕ, ◌≤◌, ◌<◌, ◌≡◌, refl, ap, ◌∙◌, sym, subst, ◌↔◌, ◌⊎◌, inl, inr, true, false, List, [], ◌∷◌, ◌++◌,
  ltb, length, take, arith, Bool-cases, length-append,
}
use wyd.Logs.{
  Bytes, Stream, stdout, stderr, GlobalBudget, LogSink, LogState, Shared, take_budget, release,
  open_sink, publish, published, write_all_bounded,
}
use wyd.Logs.Writing.{
  append-nil, append_assoc, take-all, length-take_le, through, unpublished, write-eq,
}

-- What happens to a sink: a write of its stream, and what sinks of other streams do to the budget.
pub data Event : Type 0 where
  output : Bytes → Event
  others_take others_release : ℕ → Event

abbrev pub event : Shared → Event → Shared
event s (output buf) = write_all_bounded s buf
event s (others_take n) = record s { budget = (take_budget s.budget n).0 }
event s (others_release n) = record s { budget = release s.budget n }

unfoldable pub events : Shared → List Event → Shared
events s [] = s
events s (e ∷ es) = events (event s e) es

-- All that the child wrote to the stream.
unfoldable pub outputs : List Event → Bytes
outputs [] = []
outputs (output buf ∷ es) = buf ++ outputs es
outputs (others_take n ∷ es) = outputs es
outputs (others_release n ∷ es) = outputs es

-- A sink that was opened with a limit and to which `out` was written.
abbrev Tracks : ℕ → Bytes → Shared → Type 0
Tracks limit out s =
    (s.sink.written ≡ length s.sink.file)
    × (s.sink.limit ≡ limit)
    × (length s.sink.file ≤ limit)
    × (s.budget.used ≤ s.budget.limit)
    × (published s.sink s.sink.stream s.state ≡ s.state)
    × (((s.sink.truncated ≡ false) × (s.sink.file ≡ out))
        ⊎ ((s.sink.truncated ≡ true) × (length s.sink.file < length out)))

published-again :
    (sink : LogSink) (stream : Stream) (state : LogState)
    → published sink stream (published sink stream state) ≡ published sink stream state
published-again sink stdout state = refl
published-again sink stderr state = refl

appended-Tracks :
    (limit : ℕ) (out : Bytes) (s : Shared) (buf : Bytes)
    → Tracks limit out s
    → Tracks limit (out ++ buf) (publish (unpublished s buf (through s buf)))
unfolding publish
appended-Tracks limit out s buf (written, same, bound, used, agrees, kept) =
    let k = through s buf in
    let got = length-take_le k buf (omega arith) in
    let size = length-append s.sink.file (take k buf) in
    let whole = length-append out buf in
    (
      omega arith,
      same,
      omega arith,
      omega arith,
      published-again (unpublished s buf k).sink s.sink.stream s.state,
      elim kept [
        | inr (t, lost) ↦ inr (rw t refl, omega arith)
        | inl (t, all) ↦ elim (Bool-cases (ltb k (length buf))) [
          | inl some_lost ↦ inr (rw (t, some_lost) refl, ground (arith, ap length all))
          | inr none_lost ↦ inl (
            rw (t, none_lost) refl,
            (ap (λ f. f ++ take k buf) all ∙ ap (◌++◌ out) (take-all k buf (ground arith))),
          )
        ]
      ],
    )

event-Tracks :
    (limit : ℕ) (out : Bytes) (s : Shared) (e : Event)
    → Tracks limit out s
    → Tracks limit (out ++ outputs (e ∷ [])) (event s e)
unfolding outputs take_budget release
event-Tracks limit out s (output buf) h = elim (write-eq s buf) [
  | inl (empty, same) ↦ rw (same, empty) (rw (append-nil out) h)
  | inr eq ↦ rw (eq, append-nil buf) (appended-Tracks limit out s buf h)
]
event-Tracks limit out s (others_take n) (a, b, c, d, e, f) =
    rw (append-nil out) (a, b, c, omega arith, e, f)
event-Tracks limit out s (others_release n) (a, b, c, d, e, f) =
    rw (append-nil out) (a, b, c, omega arith, e, f)

outputs-cons : (e : Event) (es : List Event) → outputs (e ∷ es) ≡ outputs (e ∷ []) ++ outputs es
unfolding outputs
outputs-cons (output buf) es = ap (λ b. b ++ outputs es) (sym (append-nil buf))
outputs-cons (others_take n) es = refl
outputs-cons (others_release n) es = refl

events-Tracks :
    (limit : ℕ) (es : List Event) (out : Bytes) (s : Shared)
    → Tracks limit out s
    → Tracks limit (out ++ outputs es) (events s es)
unfolding events outputs
events-Tracks limit [] out s h = rw (append-nil out) h
events-Tracks limit (e ∷ es) out s h =
    subst (λ all. Tracks limit all (events (event s e) es))
      (append_assoc out (outputs (e ∷ [])) (outputs es) ∙ ap (◌++◌ out) (sym (outputs-cons e es)))
      (events-Tracks limit es (out ++ outputs (e ∷ [])) (event s e) (event-Tracks limit out s e h))

open_sink-Tracks :
    (file : Bytes) (stream : Stream) (limit : ℕ) (state : LogState) (budget : GlobalBudget)
    → length file < limit
    → budget.used ≤ budget.limit
    → Tracks limit file (open_sink file stream limit state budget)
unfolding open_sink publish
open_sink-Tracks file stream limit state budget h b = (
  refl,
  refl,
  omega arith,
  b,
  published-again (open_sink file stream limit state budget).sink stream state,
  inl (ground arith, refl),
)

-- A sink opened on a file shorter than its limit never writes past the limit nor past the shared
-- budget, and what it publishes is what it holds, whatever is written to it and whatever other
-- sinks take and give back in between. Its `truncated` flag is exact: it is down if and only if
-- the file holds all that it held and all that was written since.
pub events-exact :
    (file : Bytes) (stream : Stream) (limit : ℕ) (state : LogState) (budget : GlobalBudget)
    (es : List Event)
    → length file < limit
    → budget.used ≤ budget.limit
    → let s = events (open_sink file stream limit state budget) es in
      (length s.sink.file ≤ limit)
      × (s.budget.used ≤ s.budget.limit)
      × (published s.sink s.sink.stream s.state ≡ s.state)
      × (s.sink.written ≡ length s.sink.file)
      × (s.sink.truncated ≡ false ↔ s.sink.file ≡ file ++ outputs es)
events-exact file stream limit state budget es h b =
    let s = events (open_sink file stream limit state budget) es in
    let (written, same, bound, used, agrees, kept) =
      events-Tracks limit es file (open_sink file stream limit state budget)
        (open_sink-Tracks file stream limit state budget h b) in
    (
      bound,
      used,
      agrees,
      written,
      (
        (λ t. elim kept [ inl (_, all) ↦ all | inr (t', _) ↦ absurd (cc) ]),
        (λ all. elim kept [
          | inl (t, _) ↦ t
          | inr (_, lost) ↦ absurd (omega (arith, ap length all))
        ]),
      ),
    )
