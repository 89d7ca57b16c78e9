-- ===== src/Tui/App/Filter.antt =====
-- The filter and its index of matching lines, and new output.
use agent_procs.Prelude.{
  ℕ, List, [], ◌∷◌, ◌++◌, Option, none, some, Text, is_some, unwrap_or, leb, ◌==◌, if◌then◌else◌,
  length,
}
use agent_procs.Prelude.Maps.{lookup, insert, adjust, keys}
use agent_procs.Logs.Files.{Files}
use agent_procs.Protocol.{Stream}
use agent_procs.Tui.Buffer.{LineSource, stdout, stderr, StreamMode, both, new_buffer, push}
use agent_procs.Tui.Disk.Discover.{DiskLogReader}
use agent_procs.Tui.Disk.Scan.{scan_matching_lines, scan_matching_lines_from}
use agent_procs.Tui.App.{App, FilteredIndex, normal, filter_input}
use agent_procs.Tui.App.Lines.{with_reader, disk_count}

abbrev pub build_with : Files → ℕ → Text → Text → App → App
build_with files now name filter a =
    let mode = a.stream_mode in
    let (matching, a') = with_reader name [] (scan_matching_lines files now filter mode) a in
    let (scanned, a'') = with_reader name 0 (disk_count files now mode) a' in
    let fi : FilteredIndex = record {
      filter = filter;
      stream_mode = mode;
      matching_lines = matching;
      scanned_up_to = scanned;
    } in
    record a'' { filtered_indices = insert name fi a''.filtered_indices }

abbrev pub build_for : Files → ℕ → Text → Option Text → App → App
build_for files now name none a = a
build_for files now name (some filter) a = build_with files now name filter a

unfoldable pub build_filtered_index : Files → ℕ → Text → App → App
unfolding with_reader
build_filtered_index files now name a = build_for files now name a.filter a

-- `for name in names`
unfoldable pub build_all : Files → ℕ → List Text → App → App
unfolding build_filtered_index
build_all files now [] a = a
build_all files now (name ∷ names) a =
    build_all files now names (build_filtered_index files now name a)

abbrev pub next_mode : StreamMode → StreamMode
next_mode StreamMode.stdout = StreamMode.stderr
next_mode StreamMode.stderr = both
next_mode both = StreamMode.stdout

unfoldable pub cycle_stream_mode : Files → ℕ → App → App
unfolding build_all
cycle_stream_mode files now a =
    let a' = record a { stream_mode = next_mode a.stream_mode } in
    if is_some a'.filter then build_all files now (keys a'.disk_readers) a' else a'

unfoldable pub start_filter : App → App
start_filter a = record a { input_mode = filter_input; filter_buf = unwrap_or a.filter [] }

unfoldable pub confirm_filter : Files → ℕ → App → App
unfolding build_all
confirm_filter files now a =
    let a' = record a { input_mode = normal; filter = some a.filter_buf } in
    if length a.filter_buf == 0
    then record a { input_mode = normal; filter = none; filtered_indices = [] }
    else build_all files now (keys a'.disk_readers) a'

unfoldable pub cancel_filter : App → App
cancel_filter a = record a { input_mode = normal; filter_buf = [] }

unfoldable pub clear_filter : App → App
clear_filter a = record a { filter = none; filter_buf = []; filtered_indices = [] }

abbrev pub extend_index : List ℕ → ℕ → FilteredIndex → FilteredIndex
extend_index new total fi = record fi {
  matching_lines = fi.matching_lines ++ new;
  scanned_up_to = total;
}

abbrev pub update_with : Files → ℕ → Text → FilteredIndex → Option DiskLogReader → App → App
update_with files now process fi none a = a
update_with files now process fi (some r) a =
    let (total, r') = disk_count files now fi.stream_mode r in
    let (new, r'') =
      scan_matching_lines_from files now fi.filter fi.stream_mode fi.scanned_up_to r' in
    let a' = record a { disk_readers = adjust process (λ old. r') a.disk_readers } in
    let a'' = record a {
      disk_readers = adjust process (λ old. r'') a.disk_readers;
      filtered_indices = adjust process (extend_index new total) a.filtered_indices;
    } in
    if leb total fi.scanned_up_to then a' else a''

abbrev pub update_index : Files → ℕ → Text → Option FilteredIndex → App → App
update_index files now process none a = a
update_index files now process (some fi) a =
    update_with files now process fi (lookup process a.disk_readers) a

unfoldable pub update_filtered_index : Files → ℕ → Text → App → App
unfolding scan_matching_lines_from
update_filtered_index files now process a =
    update_index files now process (lookup process a.filtered_indices) a

abbrev pub max_buffer_lines : ℕ
max_buffer_lines = 10000

abbrev pub source_of : Stream → LineSource
source_of Stream.stdout = stdout
source_of Stream.stderr = stderr

unfoldable pub push_output : Files → ℕ → Text → Stream → Text → App → App
unfolding update_filtered_index
push_output files now process stream line a =
    let old = unwrap_or (lookup process a.buffers) (new_buffer max_buffer_lines) in
    let a' = record a { buffers = insert process (push (source_of stream) line old) a.buffers } in
    if is_some a'.filter then update_filtered_index files now process a' else a'
