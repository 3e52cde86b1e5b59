-- ===== src/Logs/Examples.antt =====
-- A stream of src/runner/logs.rs that is cut, and instances of the theorems.
use wyd.Common.{◌≤◌, ◌≡◌, refl, ◌↔◌, false, List, [], ◌∷◌, ◌++◌, length, arith}
use wyd.Logs.{
  stdout, GlobalBudget, LogState, open_sink, publish, published, take_budget, release,
  write_granted, write_all_bounded, read_chunk,
}
use wyd.Logs.Bounds.{Event, output, others_take, others_release, events, outputs, events-exact}
use wyd.Logs.Utf8.{from_utf8_lossy, decode, begin_char}
use wyd.Logs.Reading.{Poll, grows, reads, polls, start}

abbrev empty_state : LogState
empty_state = record {
  stdout_bytes = 0;
  stderr_bytes = 0;
  stdout_truncated = false;
  stderr_truncated = false;
}

abbrev budget : GlobalBudget
budget = record { used = 2; limit = 6 }

-- The second write is cut by the budget, and the third goes on after another stream's file is gone.
abbrev trace : List Event
trace =
    output (1 ∷ 2 ∷ [])
    ∷ others_take 1
    ∷ output (3 ∷ 4 ∷ [])
    ∷ others_release 3
    ∷ output (5 ∷ [])
    ∷ []

gap_in_file :
    (events (open_sink [] stdout 10 empty_state budget) trace).sink.file ≡ 1 ∷ 2 ∷ 3 ∷ 5 ∷ []
unfolding events open_sink publish take_budget release write_granted write_all_bounded
gap_in_file = refl

events-exact_example :
    let s = events (open_sink [] stdout 10 empty_state budget) trace in
    (length s.sink.file ≤ 10)
    × (s.budget.used ≤ s.budget.limit)
    × (published s.sink s.sink.stream s.state ≡ s.state)
    × (s.sink.written ≡ length s.sink.file)
    × (s.sink.truncated ≡ false ↔ s.sink.file ≡ [] ++ outputs trace)
events-exact_example =
    events-exact [] stdout 10 empty_state budget trace (omega arith) (omega arith)

abbrev polled : List Poll
polled = reads 2 ∷ grows (4 ∷ 5 ∷ []) ∷ reads 2 ∷ []

-- "é" in two reads of one byte each: two replacements.
cut_char :
    (polls (start (195 ∷ 169 ∷ [])) (reads 1 ∷ reads 1 ∷ [])).seen
    ≡ 239 ∷ 191 ∷ 189 ∷ 239 ∷ 191 ∷ 189 ∷ []
unfolding polls read_chunk from_utf8_lossy decode begin_char
cut_char = refl
