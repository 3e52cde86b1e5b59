-- ===== src/Logs.antt =====
-- src/runner/logs.rs: bounded output files of a run, under one budget for all runs.
--
-- A file is its bytes, opened for appending; a write to it that fails is not modelled. What a sink
-- and the budget share by `Arc<Mutex<…>>` is passed to each call and returned by it.
mod Writing
pub mod Utf8
pub mod Bounds
pub mod Reading
mod Examples
use wyd.Common.{
  ℕ, zero, suc, ◌+◌, ◌-◌, ◌≤◌, Bool, true, false, ◌||◌, List, [], ◌∷◌, ◌++◌, ltb, leb, ◌==◌,
  if◌then◌else◌, min, length, take, Option, none, some, String, str_eq,
}
use wyd.Logs.Utf8.{from_utf8_lossy}

abbrev pub Bytes : Type 0
Bytes = List ℕ

pub data Stream : Type 0 where
  stdout stderr : Stream

pub record GlobalBudget : Type 0 where
  pub used : ℕ
  pub limit : ℕ

pub record LogState : Type 0 where
  pub stdout_bytes : ℕ
  pub stderr_bytes : ℕ
  pub stdout_truncated : Bool
  pub stderr_truncated : Bool

-- `GlobalBudget::take`: the budget afterwards, and what was granted.
unfoldable pub take_budget : GlobalBudget → ℕ → GlobalBudget × ℕ
take_budget b n =
    let granted = min n (b.limit - b.used) in (record b { used = b.used + granted }, granted)

unfoldable pub release : GlobalBudget → ℕ → GlobalBudget
release b n = record b { used = b.used - n }

pub record LogSink : Type 0 where
  pub file : Bytes
  pub written : ℕ
  pub limit : ℕ
  pub truncated : Bool
  pub stream : Stream

-- A sink with what it shares.
pub record Shared : Type 0 where
  pub sink : LogSink
  pub state : LogState
  pub budget : GlobalBudget

abbrev pub published : LogSink → Stream → LogState → LogState
published sink stdout state = record state {
  stdout_bytes = sink.written;
  stdout_truncated = sink.truncated;
}
published sink stderr state = record state {
  stderr_bytes = sink.written;
  stderr_truncated = sink.truncated;
}

unfoldable pub publish : Shared → Shared
publish s = record s { state = published s.sink s.sink.stream s.state }

unfoldable pub open_sink : Bytes → Stream → ℕ → LogState → GlobalBudget → Shared
unfolding publish
open_sink file stream limit state budget =
    let written = length file in
    publish (record {
      sink = record {
        file = file;
        written = written;
        limit = limit;
        truncated = leb limit written;
        stream = stream;
      };
      state = state;
      budget = budget;
    })

abbrev pub set_truncated : Shared → Shared
set_truncated s = record s { sink = record s.sink { truncated = true } }

abbrev pub append_bytes : Shared → Bytes → ℕ → Shared
append_bytes s buf granted = record s {
  sink = record s.sink {
    file = s.sink.file ++ take granted buf;
    written = s.sink.written + granted;
  };
}

-- The part of `write_all_bounded` after the early return.
unfoldable pub write_granted : Shared → Bytes → ℕ → Shared
write_granted s buf want =
    let (budget, granted) = take_budget s.budget want in
    let s₁ = record s { budget = budget } in
    let s₂ = if ltb granted want then set_truncated s₁ else s₁ in
    let s₃ = if ltb 0 granted then append_bytes s₂ buf granted else s₂ in
    let s₄ = if ltb granted (length buf) then set_truncated s₃ else s₃ in publish s₄

unfoldable pub write_all_bounded : Shared → Bytes → Shared
write_all_bounded s buf =
    let room = s.sink.limit - s.sink.written in
    let want = min (length buf) room in
    if want == 0
    then (if length buf == 0 then s else publish (set_truncated s))
    else write_granted s buf want

pub record LogChunk : Type 0 where
  pub text : Bytes
  pub next_cursor : ℕ
  pub truncated : Bool
  pub eof : Bool

abbrev pub drop : ℕ → Bytes → Bytes
drop zero xs = xs
drop (suc n) [] = []
drop (suc n) (x ∷ xs) = drop n xs

-- `read_chunk`; no file is `none`. The text is its UTF-8 bytes.
unfoldable pub read_chunk : Option Bytes → ℕ → ℕ → LogChunk
read_chunk none cursor max_bytes = record {
  text = [];
  next_cursor = 0;
  truncated = false;
  eof = true;
}
read_chunk (some file) cursor max_bytes =
    let len = length file in
    let start = min cursor len in
    let n = min (len - start) max_bytes in
    record {
      text = from_utf8_lossy (take n (drop start file));
      next_cursor = start + n;
      truncated = false;
      eof = leb len (start + n);
    }
