-- ===== src/Logs/Writer.antt =====
-- src/daemon/log_writer.rs: the log of one stream, with its index, its rotation and its subscribers.
pub mod Laws
pub mod Coherent
pub mod Capture
pub mod Paths
pub mod Rotation
pub mod Moves
use agent_procs.Prelude.{
  ℕ, zero, suc, ◌+◌, ◌-◌, Bool, true, false, not, ◌&&◌, List, [], ◌∷◌, ◌++◌, Option, none, some,
  Text, text_eq, ltb, leb, if◌then◌else◌, length, is_some,
}
use agent_procs.Prelude.Maps.{Map, lookup, insert, remove}
use agent_procs.Protocol.{Stream}
use agent_procs.Logs.Files.{Files, idx_path_for, rotated_path}
use agent_procs.Logs.Index.{IndexRecord, create, encode}
use agent_procs.Logs.Lines.{newline}

pub record OutputLine : Type 0 where
  pub process : Text
  pub stream : Stream
  pub line : Text

-- The log directory, and the path at which the open index file of a writer stands, if it is linked.
pub record Disk : Type 0 where
  pub files : Files
  pub open_index : Option Text

abbrev stands_at : Text → Option Text → Bool
stands_at path none = false
stands_at path (some at) = text_eq at path

abbrev pub moved : Text → Text → Option (List ℕ) → Disk → Disk
moved from to none d = d
moved from to (some contents) d = record {
  files = insert to contents (remove from d.files);
  open_index =
      if stands_at from d.open_index
      then some to
      else if stands_at to d.open_index
      then none
      else d.open_index;
}

-- `let _ = rename(from, to)`
unfoldable pub rename : Text → Text → Disk → Disk
rename from to d = moved from to (lookup from d.files) d

-- `let _ = remove_file(path)`
unfoldable pub remove_file : Text → Disk → Disk
remove_file path d = record {
  files = remove path d.files;
  open_index = if stands_at path d.open_index then none else d.open_index;
}

-- A file is moved with its index.
abbrev pub rename_both : Text → Text → Disk → Disk
rename_both from to d = rename (idx_path_for from) (idx_path_for to) (rename from to d)

-- `for i in (1..max).rev()`, from the last.
unfoldable pub shift : Text → ℕ → Disk → Disk
unfolding rename
shift log_path zero d = d
shift log_path (suc i) d =
    shift log_path i
      (rename_both (rotated_path log_path (suc i)) (rotated_path log_path (suc i + 1)) d)

unfoldable pub rotate_log_files : Text → ℕ → Disk → Disk
unfolding shift rename remove_file
rotate_log_files log_path max_rotated_files d =
    let shifted = shift log_path (max_rotated_files - 1) d in
    let renamed = rename_both log_path (rotated_path log_path 1) shifted in
    let excess = rotated_path log_path (max_rotated_files + 1) in
    remove_file (idx_path_for excess) (remove_file excess renamed)

-- `file` is whether the log file is open, `pending` what the index writer buffers.
pub record LogWriteState : Type 0 where
  pub file : Bool
  pub pending : List ℕ
  pub bytes_written : ℕ
  pub lines_since_idx_flush : ℕ
  pub log_path : Text
  pub process_name : Text
  pub stream : Stream
  pub max_bytes : ℕ
  pub max_rotated_files : ℕ

-- What writers share: the directory, the sequence numbers, and the lines sent to subscribers.
pub record World : Type 0 where
  pub disk : Disk
  pub seq : ℕ
  pub sent : List OutputLine

abbrev pub Writer : Type 0
Writer = LogWriteState × World

abbrev pub add_to : Text → List ℕ → Option (List ℕ) → Files → Files
add_to path bytes none files = files
add_to path bytes (some contents) files = insert path (contents ++ bytes) files

abbrev pub append_at : Option Text → List ℕ → Files → Files
append_at none bytes files = files
append_at (some path) bytes files = add_to path bytes (lookup path files) files

-- `idx_writer.flush()`
unfoldable pub flush : Writer → Writer
flush (st, w) =
    let files = append_at w.disk.open_index st.pending w.disk.files in
    (
      record st { pending = [] },
      record w { disk = record { files = files; open_index = w.disk.open_index } },
    )

abbrev put_file : Text → List ℕ → Disk → Disk
put_file path contents d = record d { files = insert path contents d.files }

-- The new log file and index; an index that cannot be made leaves the old one in use. `can_create`
-- tells the paths that the system lets the daemon create.
abbrev pub recreate : (Text → Bool) → Writer → Bool × Writer
recreate can_create (st, w) =
    let idx = idx_path_for st.log_path in
    let d : Disk = put_file st.log_path [] w.disk in
    let d' : Disk = record { files = insert idx (create w.seq) d.files; open_index = some idx } in
    if not (can_create st.log_path)
    then (false, (record st { file = false }, w))
    else if not (can_create idx)
    then (false, (record st { file = true }, record w { disk = d }))
    else (
      true,
      (
        record st { file = true; pending = []; bytes_written = 0; lines_since_idx_flush = 0 },
        record w { disk = d' },
      ),
    )

unfoldable pub rotate : (Text → Bool) → Writer → Bool × Writer
unfolding flush rotate_log_files
rotate can_create sw =
    let (st, w) = flush sw in
    let d = rotate_log_files st.log_path st.max_rotated_files w.disk in
    recreate can_create (record st { file = false }, record w { disk = d })

abbrev pub flush_every : ℕ
flush_every = 64

abbrev pub flush_if_due : Writer → Writer
flush_if_due (st, w) =
    let (st', w') = flush (st, w) in
    if leb flush_every st.lines_since_idx_flush
    then (record st' { lines_since_idx_flush = 0 }, w')
    else (st, w)

abbrev pub put_line : Text → Writer → Writer
put_line line (st, w) =
    let r : IndexRecord = record { byte_offset = st.bytes_written; seq = w.seq } in
    let files = append_at (some st.log_path) (line ++ newline ∷ []) w.disk.files in
    (
      record st {
        pending = st.pending ++ encode r;
        bytes_written = st.bytes_written + (length line + 1);
        lines_since_idx_flush = st.lines_since_idx_flush + 1;
      },
      record w { disk = record { files = files; open_index = w.disk.open_index }; seq = w.seq + 1 },
    )

abbrev pub send : Text → Writer → Writer
send line (st, w) = (
  st,
  record w {
    sent = w.sent ++ record { process = st.process_name; stream = st.stream; line = line } ∷ [];
  },
)

-- The part of `write_line` after the rotation, when the log file is open.
abbrev pub write_open : Text → Writer → Writer
write_open line (st, w) =
    if st.file then send line (flush_if_due (put_line line (st, w))) else (st, w)

abbrev pub is_full : Text → LogWriteState → Bool
is_full line st = ltb 0 st.max_bytes && ltb st.max_bytes (st.bytes_written + (length line + 1))

unfoldable pub write_line : (Text → Bool) → Text → Writer → Writer
unfolding rotate flush
write_line can_create line sw =
    let (done, rotated) = rotate can_create sw in
    if is_full line sw.0
    then if done then write_open line rotated else rotated
    else write_open line sw

abbrev pub write_lines : (Text → Bool) → List Text → Writer → Writer
write_lines can_create [] sw = sw
write_lines can_create (l ∷ ls) sw = write_lines can_create ls (write_line can_create l sw)

-- `capture_output`, with the lines that its sources give, in the order in which it takes them.
unfoldable pub capture_output : (Text → Bool) → List Text → Writer → Writer
unfolding flush write_line
capture_output can_create lines sw = flush (write_lines can_create lines sw)

-- `rotate_if_exists`
unfoldable pub rotate_if_exists : Text → Disk → Disk
unfolding rotate_log_files
rotate_if_exists log_path d =
    let rotated = rotate_log_files log_path 5 d in
    if is_some (lookup log_path d.files) then rotated else d

-- `LogSink::open`: `none` is the error of a file that cannot be made. A file that exists is emptied.
unfoldable pub open_sink_at : (Text → Bool) → Text → ℕ → Files → Option Files
open_sink_at can_create log_path seq_base files =
    let idx = idx_path_for log_path in
    if not (can_create log_path)
    then none
    else if not (can_create idx)
    then none
    else some (insert idx (create seq_base) (insert log_path [] files))

-- The state in which `capture_output` starts, with a sink that was opened.
unfoldable pub start_writer : Text → Text → Stream → ℕ → ℕ → Files → ℕ → List OutputLine → Writer
start_writer log_path process_name stream max_bytes max_rotated_files files seq sent = (
  record {
    file = true;
    pending = [];
    bytes_written = 0;
    lines_since_idx_flush = 0;
    log_path = log_path;
    process_name = process_name;
    stream = stream;
    max_bytes = max_bytes;
    max_rotated_files = max_rotated_files;
  },
  record {
    disk = record { files = files; open_index = some (idx_path_for log_path) };
    seq = seq;
    sent = sent;
  },
)
