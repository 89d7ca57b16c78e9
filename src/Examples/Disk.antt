-- ===== src/Examples/Disk.antt =====
-- The log files of a process with one rotated file, and the theorems at them.
use agent_procs.Tui.Disk.Discover.Fuel.{rotated_from-enough}
use agent_procs.Prelude.Texts.{text_eq, decimal, decimal_on}
use agent_procs.Tui.Disk.Merge.View.{view, read_interleaved-StoredIn, scan_interleaved-StoredIn}
use agent_procs.Tui.Disk.Merge.Laws.{merge-InOrder}
use agent_procs.Tui.Disk.Merge.Order.{numbered}
use agent_procs.Tui.Disk.Merge.Sorted.{Ascending}
use agent_procs.Tui.Disk.Merge.{merge, merged_entries, stream_entries, read_interleaved}
use agent_procs.Tui.Disk.Fresh.{settled}
use agent_procs.Tui.Disk.Scan.{scan_single_stream, scan_interleaved, matches}
use agent_procs.Prelude.{
  ◌≡◌, refl, List, [], ◌∷◌, map, some, Text, bytes, take, drop, select, arith, inl, All, length,
  ◌+◌,
}
use agent_procs.Prelude.Maps.{lookup}
use agent_procs.Logs.Files.{Files, idx_path_for}
use agent_procs.Logs.Index.{
  create, append, encode, to_le_bytes, open_index, read_range, decode_chunks, decode, from_le_bytes,
  line_count_from_metadata,
}
use agent_procs.Logs.IndexLaws.{written}
use agent_procs.Logs.Lines.{unlines}
use agent_procs.Tui.Buffer.{stdout, stderr, is_stdout, is_stderr}
use agent_procs.Tui.Disk.Segment.{open_at}
use agent_procs.Tui.Disk.Segment.Laws.{Stored, StoredIn}
use agent_procs.Logs.Entries.{entries}
use agent_procs.Tui.Disk.Spans.{
  read_lines_from_segments, segments_of, lines_of, read_lines_from_segments-StoredIn,
}
use agent_procs.Tui.Disk.Discover.{
  DiskLogReader, new_reader, discover_both, discover_segments, rotated_from, segment_at,
  idx_line_count, count_lines_in_file,
}
use agent_procs.Tui.Disk.Scan.Laws.{Shelved, scan_single_stream-StoredIn}

abbrev log : Text
log = bytes "/l/web.stdout"

abbrev old : Text
old = bytes "/l/web.stdout.1"

abbrev err : Text
err = bytes "/l/web.stderr"

abbrev old_lines : List Text
old_lines = bytes "boot" ∷ bytes "ready" ∷ []

abbrev new_lines : List Text
new_lines = bytes "get /" ∷ []

abbrev err_lines : List Text
err_lines = bytes "warn" ∷ []

abbrev pub files : Files
files =
    (old, unlines old_lines)
    ∷ (idx_path_for old, written (create 0) (entries 0 old_lines (0 ∷ 2 ∷ [])))
    ∷ (log, unlines new_lines)
    ∷ (idx_path_for log, written (create 3) (entries 0 new_lines (3 ∷ [])))
    ∷ (err, unlines err_lines)
    ∷ (idx_path_for err, written (create 1) (entries 0 err_lines (1 ∷ [])))
    ∷ []

abbrev rotated : Stored
rotated = record {
  segment = record { log_path = old; idx_path = idx_path_for old; line_count = 2 };
  base = 0;
  ls = old_lines;
  ss = 0 ∷ 2 ∷ [];
}

abbrev current_log : Stored
current_log = record {
  segment = record { log_path = log; idx_path = idx_path_for log; line_count = 1 };
  base = 3;
  ls = new_lines;
  ss = 3 ∷ [];
}

abbrev err_log : Stored
err_log = record {
  segment = record { log_path = err; idx_path = idx_path_for err; line_count = 1 };
  base = 1;
  ls = err_lines;
  ss = 1 ∷ [];
}

rotated-StoredIn : StoredIn files rotated
unfolding lookup unlines create append encode to_le_bytes text_eq
rotated-StoredIn = (
  refl,
  inl (record {
    log = refl;
    index = refl;
    paired = refl;
    small_base = omega arith;
    fits = ((omega arith, omega arith), ((omega arith, omega arith), tt));
    one_line = (refl, (refl, tt));
  }),
)

current_log-StoredIn : StoredIn files current_log
unfolding lookup unlines create append encode to_le_bytes text_eq
current_log-StoredIn = (
  refl,
  inl (record {
    log = refl;
    index = refl;
    paired = refl;
    small_base = omega arith;
    fits = ((omega arith, omega arith), tt);
    one_line = (refl, tt);
  }),
)

err_log-StoredIn : StoredIn files err_log
unfolding lookup unlines create append encode to_le_bytes text_eq
err_log-StoredIn = (
  refl,
  inl (record {
    log = refl;
    index = refl;
    paired = refl;
    small_base = omega arith;
    fits = ((omega arith, omega arith), tt);
    one_line = (refl, tt);
  }),
)

abbrev pub outs : List Stored
outs = rotated ∷ current_log ∷ []

abbrev pub errs : List Stored
errs = err_log ∷ []

outs-StoredIn : All (StoredIn files) outs
outs-StoredIn = (rotated-StoredIn, (current_log-StoredIn, tt))

errs-StoredIn : All (StoredIn files) errs
errs-StoredIn = (err_log-StoredIn, tt)

read_lines_from_segments-StoredIn_example :
    read_lines_from_segments files (segments_of outs) 1 2
    ≡ some (bytes "ready" ∷ bytes "get /" ∷ [])
read_lines_from_segments-StoredIn_example =
    read_lines_from_segments-StoredIn files outs 1 2 outs-StoredIn

abbrev pub fresh_reader : DiskLogReader
fresh_reader = new_reader (bytes "/l") (bytes "web")

pub out-Shelved : Shelved files 0 stdout fresh_reader outs
unfolding discover_both discover_segments rotated_from segment_at idx_line_count count_lines_in_file
    line_count_from_metadata lookup unlines create append encode to_le_bytes decimal decimal_on
    text_eq new_reader
out-Shelved = record { found = refl; stored = outs-StoredIn }

pub err-Shelved : Shelved files 0 stderr fresh_reader errs
unfolding discover_both discover_segments rotated_from segment_at idx_line_count count_lines_in_file
    line_count_from_metadata lookup unlines create append encode to_le_bytes decimal decimal_on
    text_eq new_reader
err-Shelved = record { found = refl; stored = errs-StoredIn }

scan_single_stream-StoredIn_example :
    (scan_single_stream files 0 (bytes "e") stdout 1 fresh_reader).0
    ≡ matches (bytes "e") 1 (drop 1 (lines_of outs))
scan_single_stream-StoredIn_example =
    scan_single_stream-StoredIn files 0 stdout fresh_reader outs out-Shelved (bytes "e") 1

read_interleaved-StoredIn_example :
    read_interleaved files 0 1 2 fresh_reader
    ≡ (some (take 2 (drop 1 (view files outs errs))), settled files 0 fresh_reader)
read_interleaved-StoredIn_example =
    read_interleaved-StoredIn files 0 fresh_reader outs errs out-Shelved err-Shelved 1 2

shown :
    view files outs errs
    ≡ (stdout, bytes "boot")
      ∷ (stderr, bytes "warn")
      ∷ (stdout, bytes "ready")
      ∷ (stdout, bytes "get /")
      ∷ []
unfolding merge merged_entries stream_entries open_at open_index read_range decode_chunks decode
    from_le_bytes lookup unlines create append encode to_le_bytes text_eq
shown = refl

scan_interleaved-StoredIn_example :
    (scan_interleaved files 0 (bytes "a") 0 fresh_reader).0
    ≡ matches (bytes "a") 0 (drop 0 (map (λ l. l.1) (view files outs errs)))
scan_interleaved-StoredIn_example =
    scan_interleaved-StoredIn files 0 fresh_reader outs errs out-Shelved err-Shelved (bytes "a") 0

out-Ascending : Ascending (stream_entries files stdout 0 (segments_of outs))
unfolding stream_entries open_at open_index read_range decode_chunks decode from_le_bytes lookup
    unlines create append encode to_le_bytes text_eq
out-Ascending = ((omega arith, (omega arith, tt)), ((omega arith, tt), (tt, tt)))

err-Ascending : Ascending (stream_entries files stderr 0 (segments_of errs))
unfolding stream_entries open_at open_index read_range decode_chunks decode from_le_bytes lookup
    unlines create append encode to_le_bytes text_eq
err-Ascending = (tt, tt)

merge-InOrder_example :
    Ascending (merged_entries files (segments_of outs) (segments_of errs))
    × (select (λ x. is_stdout x.0) (merge files (segments_of outs) (segments_of errs))
        ≡ numbered stdout 0 3)
    × (select (λ x. is_stderr x.0) (merge files (segments_of outs) (segments_of errs))
        ≡ numbered stderr 0 1)
merge-InOrder_example =
    merge-InOrder files outs errs outs-StoredIn errs-StoredIn out-Ascending err-Ascending

rotated_from-enough_example :
    rotated_from files log (length files + 4) 1 ≡ rotated_from files log (length files) 1
rotated_from-enough_example = rotated_from-enough files log 4 1 (omega arith)
