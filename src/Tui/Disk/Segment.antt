-- ===== src/Tui/Disk/Segment.antt =====
-- One log file with its index: `read_lines_from_segment`.
pub mod Laws
use agent_procs.Prelude.{
  ℕ, zero, suc, ◌+◌, ◌-◌, Bool, true, false, List, [], ◌∷◌, ◌++◌, Option, none, some, Text, ◌==◌,
  if◌then◌else◌, length, take, drop,
}
use agent_procs.Prelude.Maps.{Map, lookup}
use agent_procs.Logs.Files.{Files}
use agent_procs.Logs.Index.{IndexRecord, IndexReader, open_index, read_range}
use agent_procs.Logs.Lines.{read_n, buf_lines}

-- The paths are those of a segment; its line count was taken when it was discovered.
pub record Segment : Type 0 where
  pub log_path : Text
  pub idx_path : Text
  pub line_count : ℕ

abbrev pub open_bytes : Option (List ℕ) → Option IndexReader
open_bytes none = none
open_bytes (some contents) = open_index contents

-- `if let Ok(Some(reader)) = IndexReader::open(idx_path)`
unfoldable pub open_at : Files → Text → Option IndexReader
open_at files path = open_bytes (lookup path files)

abbrev pub from_offset : ℕ → ℕ → Option (List ℕ) → Option (List Text)
from_offset offset n none = none
from_offset offset n (some contents) = some (read_n n (drop offset contents))

-- The lines of the contiguous `records`, read from the first one's offset on.
abbrev pub read_records : Files → Text → List IndexRecord → Option (List Text)
read_records files log_path [] = some []
read_records files log_path (r ∷ rs) =
    from_offset r.byte_offset (length (r ∷ rs)) (lookup log_path files)

abbrev scan_lines : ℕ → ℕ → Option (List ℕ) → Option (List Text)
scan_lines start count none = none
scan_lines start count (some contents) = some (take count (drop start (buf_lines contents)))

abbrev pub read_by : Files → Text → ℕ → ℕ → Option IndexReader → Option (List Text)
read_by files log_path start count (some reader) =
    read_records files log_path (read_range reader start count)
read_by files log_path start count none = scan_lines start count (lookup log_path files)

unfoldable pub read_lines_from_segment : Files → Text → Text → ℕ → ℕ → Option (List Text)
unfolding open_at
read_lines_from_segment files log_path idx_path start count =
    if count == 0 then some [] else read_by files log_path start count (open_at files idx_path)
