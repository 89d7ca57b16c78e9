-- ===== src/Tui/App/Lines.antt =====
-- The lines of a process: their number, and the visible window of them.
use agent_procs.Prelude.{
  ℕ, ◌-◌, List, [], ◌++◌, map, Option, none, some, Text, contains, is_some, unwrap_or, leb, ◌==◌,
  if◌then◌else◌, length, take, drop, max, select,
}
use agent_procs.Prelude.Maps.{lookup, adjust}
use agent_procs.Logs.Files.{Files}
use agent_procs.Tui.Buffer.{
  LineSource, stdout, stderr, StreamMode, both, OutputBuffer, stdout_lines, stderr_lines,
}
use agent_procs.Tui.Disk.Discover.{DiskLogReader, line_count, line_count_both}
use agent_procs.Tui.Disk.Scan.{read_lines, read_scattered_lines}
use agent_procs.Tui.Disk.Merge.{read_interleaved}
use agent_procs.Tui.App.{App, FilteredIndex}

abbrev pub Line : Type 0
Line = LineSource × Text

abbrev pub with_source : LineSource → List Text → List Line
with_source source ls = map (λ l. (source, l)) ls

abbrev pub lines_by : StreamMode → OutputBuffer → List Line
lines_by StreamMode.stdout b = with_source stdout (stdout_lines b)
lines_by StreamMode.stderr b = with_source stderr (stderr_lines b)
lines_by both b = b.lines

abbrev pub count_by : StreamMode → OutputBuffer → ℕ
count_by StreamMode.stdout b = b.stdout_count
count_by StreamMode.stderr b = b.stderr_count
count_by both b = length b.lines

abbrev pub matching_in : StreamMode → Option Text → OutputBuffer → ℕ
matching_in mode none b = count_by mode b
matching_in mode (some pat) b = length (select (λ l. contains l.1 pat) (lines_by mode b))

abbrev pub hot_count : StreamMode → Option Text → Option OutputBuffer → ℕ
hot_count mode filter none = 0
hot_count mode filter (some b) = matching_in mode filter b

unfoldable pub hot_line_count : Text → Option Text → App → ℕ
hot_line_count name filter a = hot_count a.stream_mode filter (lookup name a.buffers)

-- A call on the reader of a process, with its result when there is no reader.
abbrev pub call {ℓ} :
    {B : Type ℓ}
    → Text
    → B
    → (DiskLogReader → B × DiskLogReader)
    → Option DiskLogReader
    → App
    → B × App
call name d f none a = (d, a)
call name d f (some r) a =
    let (b, r') = f r in (b, record a { disk_readers = adjust name (λ old. r') a.disk_readers })

-- `self.disk_readers.get_mut(name)`
unfoldable pub with_reader {ℓ} :
    {B : Type ℓ} → Text → B → (DiskLogReader → B × DiskLogReader) → App → B × App
with_reader name d f a = call name d f (lookup name a.disk_readers) a

abbrev pub disk_count : Files → ℕ → StreamMode → DiskLogReader → ℕ × DiskLogReader
disk_count files now StreamMode.stdout r = line_count files now stdout r
disk_count files now StreamMode.stderr r = line_count files now stderr r
disk_count files now both r = line_count_both files now r

unfoldable pub disk_line_count : Files → ℕ → Text → App → ℕ × App
unfolding with_reader
disk_line_count files now name a = with_reader name 0 (disk_count files now a.stream_mode) a

unfoldable pub total_line_count : Files → ℕ → Text → App → ℕ × App
unfolding hot_line_count disk_line_count
total_line_count files now name a =
    let hot = hot_line_count name none a in
    let (disk, a') = disk_line_count files now name a in (max disk hot, a')

abbrev pub matching_count : Option FilteredIndex → ℕ
matching_count none = 0
matching_count (some fi) = length fi.matching_lines

unfoldable pub line_count_for : Files → ℕ → Text → App → ℕ × App
unfolding total_line_count
line_count_for files now name a =
    let total = total_line_count files now name a in
    if is_some a.filter then (matching_count (lookup name a.filtered_indices), a) else total

abbrev pub hot_range : StreamMode → ℕ → ℕ → Option OutputBuffer → List Line
hot_range mode start count none = []
hot_range mode start count (some b) = take count (drop start (lines_by mode b))

unfoldable pub hot_buffer_range : Text → ℕ → ℕ → App → List Line
hot_buffer_range name start count a = hot_range a.stream_mode start count (lookup name a.buffers)

abbrev pub tagged : LineSource → Option (List Text) → List Line
tagged source none = []
tagged source (some ls) = with_source source ls

abbrev pub disk_range : Files → ℕ → StreamMode → ℕ → ℕ → DiskLogReader → List Line × DiskLogReader
disk_range files now StreamMode.stdout start count r =
    let (ls, r') = read_lines files now stdout start count r in (tagged stdout ls, r')
disk_range files now StreamMode.stderr start count r =
    let (ls, r') = read_lines files now stderr start count r in (tagged stderr ls, r')
disk_range files now both start count r =
    let (ls, r') = read_interleaved files now start count r in (unwrap_or ls [], r')

unfoldable pub disk_read_range : Files → ℕ → Text → ℕ → ℕ → App → List Line × App
unfolding with_reader
disk_read_range files now name start count a =
    with_reader name [] (disk_range files now a.stream_mode start count) a

abbrev pub scroll_offset : Text → App → ℕ
scroll_offset name a = if a.paused then unwrap_or (lookup name a.scroll_offsets) 0 else 0

abbrev matching_of : Option FilteredIndex → List ℕ
matching_of none = []
matching_of (some fi) = fi.matching_lines

unfoldable pub filtered_visible_lines : Files → ℕ → Text → ℕ → App → List Line × App
unfolding with_reader
filtered_visible_lines files now name visible_height a =
    let total = matching_count (lookup name a.filtered_indices) in
    let window_end = total - scroll_offset name a in
    let window_start = window_end - visible_height in
    let count = window_end - window_start in
    let numbers = take count (drop window_start (matching_of (lookup name a.filtered_indices))) in
    if total == 0
    then ([], a)
    else if count == 0
    then ([], a)
    else with_reader name [] (read_scattered_lines files now a.stream_mode numbers) a

-- The window `from` .. `to`, of lines that are on disk before `boundary` and in the buffer after.
unfoldable pub window_lines : Files → ℕ → Text → ℕ → ℕ → ℕ → App → List Line × App
unfolding hot_buffer_range disk_read_range
window_lines files now name boundary from to a =
    let (disk, a') = disk_read_range files now name from (boundary - from) a in
    if leb boundary from
    then (hot_buffer_range name (from - boundary) (to - from) a, a)
    else if leb to boundary
    then disk_read_range files now name from (to - from) a
    else (disk ++ hot_buffer_range name 0 (to - boundary) a', a')

unfoldable pub visible_lines : Files → ℕ → Text → ℕ → App → List Line × App
unfolding filtered_visible_lines total_line_count hot_line_count disk_line_count window_lines
visible_lines files now name visible_height a =
    let (total, a') = total_line_count files now name a in
    let window_end = total - scroll_offset name a' in
    let window_start = window_end - visible_height in
    let hot_len = hot_line_count name none a' in
    let (disk_count, a'') = disk_line_count files now name a' in
    if is_some a.filter
    then filtered_visible_lines files now name visible_height a
    else if window_end - window_start == 0
    then ([], a')
    else window_lines files now name (disk_count - hot_len) window_start window_end a''
