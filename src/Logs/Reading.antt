-- ===== src/Logs/Reading.antt =====
-- A reader that follows a run's output with `read_chunk` of src/runner/logs.rs while the run writes.
use wyd.Common.{ℕ, ◌-◌, ◌≤◌, ◌≡◌, some, List, [], ◌∷◌, ◌++◌, min, length, take}
use wyd.Logs.{Bytes, drop, read_chunk}
use wyd.Logs.Utf8.{from_utf8_lossy}

-- A reader: the file it reads, where it is, and the text that it has been given.
pub record Reader : Type 0 where
  pub file : Bytes
  pub cursor : ℕ
  pub seen : Bytes

-- The run appends to the file, or the reader asks for one more chunk of at most so many bytes.
pub data Poll : Type 0 where
  grows : Bytes → Poll
  reads : ℕ → Poll

abbrev pub poll : Reader → Poll → Reader
poll r (grows more) = record r { file = r.file ++ more }
poll r (reads max_bytes) =
    let chunk = read_chunk (some r.file) r.cursor max_bytes in
    record r { cursor = chunk.next_cursor; seen = r.seen ++ chunk.text }

unfoldable pub polls : Reader → List Poll → Reader
polls r [] = r
polls r (p ∷ ps) = polls (poll r p) ps

abbrev pub start : Bytes → Reader
start file = record { file = file; cursor = 0; seen = [] }

abbrev pub joined : List Bytes → Bytes
joined [] = []
joined (piece ∷ pieces) = piece ++ joined pieces

-- Each piece decoded by itself.
abbrev pub decoded : List Bytes → Bytes
decoded [] = []
decoded (piece ∷ pieces) = from_utf8_lossy piece ++ decoded pieces

-- What a reader has been given is the file up to its cursor, decoded in pieces.
abbrev pub Pieces : Bytes → Bytes → Type 0
Pieces seen prefix = (pieces : List Bytes) × (joined pieces ≡ prefix) × (seen ≡ decoded pieces)

abbrev UpTo : Reader → Type 0
UpTo r = (r.cursor ≤ length r.file) × Pieces r.seen (take r.cursor r.file)

-- The bytes of the next chunk.
abbrev piece_of : Reader → ℕ → Bytes
piece_of r max_bytes =
    let start = min r.cursor (length r.file) in
    take (min (length r.file - start) max_bytes) (drop start r.file)
