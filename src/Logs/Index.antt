-- ===== src/Logs/Index.antt =====
-- src/daemon/log_index.rs: the binary line index beside a log file. A file is the list of its bytes.
use agent_procs.Prelude.{
  ℕ, zero, suc, ◌+◌, ◌-◌, ◌*◌, ◌/◌, ◌%◌, min, List, [], ◌∷◌, ◌++◌, Option, none, some, bytes,
  text_eq, ltb, leb, ◌==◌, if◌then◌else◌, length, take, drop, not,
}

abbrev pub magic : List ℕ
magic = bytes "LIDX"

abbrev pub version : ℕ
version = 1

abbrev pub header_size : ℕ
header_size = 16

abbrev pub record_size : ℕ
record_size = 16

-- `to_le_bytes` and `from_le_bytes` of an integer of `w` bytes.
unfoldable pub to_le_bytes : ℕ → ℕ → List ℕ
to_le_bytes zero v = []
to_le_bytes (suc w) v = (v % 256) ∷ to_le_bytes w (v / 256)

unfoldable pub from_le_bytes : List ℕ → ℕ
from_le_bytes [] = 0
from_le_bytes (b ∷ bs) = b + 256 * from_le_bytes bs

pub record IndexRecord : Type 0 where
  pub byte_offset : ℕ  -- u64
  pub seq : ℕ  -- u64

-- `IndexWriter::create`: the new file.
unfoldable pub create : ℕ → List ℕ
unfolding to_le_bytes
create seq_base = magic ++ to_le_bytes 4 version ++ to_le_bytes 8 seq_base

unfoldable pub encode : IndexRecord → List ℕ
unfolding to_le_bytes
encode r = to_le_bytes 8 r.byte_offset ++ to_le_bytes 8 r.seq

-- `IndexWriter::append`
unfoldable pub append : List ℕ → IndexRecord → List ℕ
unfolding encode
append file r = file ++ encode r

pub record IndexReader : Type 0 where
  pub file : List ℕ
  pub line_count : ℕ
  pub seq_base : ℕ

abbrev slice : ℕ → ℕ → List ℕ → List ℕ
slice from to bs = take (to - from) (drop from bs)

-- `IndexReader::open`
unfoldable pub open_index : List ℕ → Option IndexReader
unfolding from_le_bytes
open_index file =
    if ltb (length file) header_size
    then none
    else if not (text_eq (slice 0 4 file) magic)
    then none
    else if not (from_le_bytes (slice 4 8 file) == version)
    then none
    else some (record {
      file = file;
      line_count = (length file - header_size) / record_size;
      seq_base = from_le_bytes (slice 8 16 file);
    })

unfoldable pub decode : List ℕ → IndexRecord
unfolding from_le_bytes
decode buf = record {
  byte_offset = from_le_bytes (slice 0 8 buf);
  seq = from_le_bytes (slice 8 16 buf);
}

-- `read_record`; `none` is the error of a line out of range.
unfoldable pub read_record : IndexReader → ℕ → Option IndexRecord
unfolding decode
read_record r line =
    if leb r.line_count line
    then none
    else some (decode (take record_size (drop (header_size + line * record_size) r.file)))

-- `as_chunks`, of `n` chunks.
unfoldable pub decode_chunks : ℕ → List ℕ → List IndexRecord
unfolding decode
decode_chunks zero buf = []
decode_chunks (suc n) buf = decode (take record_size buf) ∷ decode_chunks n (drop record_size buf)

unfoldable pub read_range : IndexReader → ℕ → ℕ → List IndexRecord
unfolding decode_chunks
read_range r start count =
    let actual = min (start + count) r.line_count - start in
    if actual == 0
    then []
    else decode_chunks actual
        (take (actual * record_size) (drop (header_size + start * record_size) r.file))

unfoldable pub line_count_from_metadata : ℕ → ℕ
line_count_from_metadata len = if ltb len header_size then 0 else (len - header_size) / record_size
