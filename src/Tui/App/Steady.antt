-- ===== src/Tui/App/Steady.antt =====
-- The operations that leave the list of processes and the selection as they are.
use agent_procs.Tui.Buffer.{new_buffer, push}
use agent_procs.Tui.Disk.Scan.{scan_matching_lines}
use agent_procs.Prelude.{
  ℕ, ◌≡◌, refl, ◌∙◌, Bool, true, false, not, List, [], ◌∷◌, Option, none, some, Text, is_some, leb,
  ◌==◌, if◌then◌else◌, length, Bool-cases, inl, inr, unwrap_or,
}
use agent_procs.Prelude.Maps.{lookup, keys, insert}
use agent_procs.Logs.Files.{Files}
use agent_procs.Protocol.{Stream}
use agent_procs.Tui.Disk.Discover.{DiskLogReader}
use agent_procs.Tui.App.{App, FilteredIndex, normal}
use agent_procs.Tui.App.Lines.{
  with_reader, call, disk_line_count, total_line_count, line_count_for, disk_count,
}
use agent_procs.Tui.App.Move.{
  selected_name, for_selected, up_by, down_by, to_top, to_bottom, forget_offset, scroll_up_by,
  scroll_down_by, scroll_to_top, scroll_to_bottom, toggle_pause, scroll_up, scroll_down,
}
use agent_procs.Tui.App.Filter.{
  build_for, build_filtered_index, build_all, cycle_stream_mode, confirm_filter, update_with,
  update_index, update_filtered_index, push_output, next_mode, max_buffer_lines, source_of,
}

abbrev pub Steady : App → App → Type 0
Steady a b = (b.processes ≡ a.processes) × (b.selected ≡ a.selected)

Steady-trans : (a b c : App) → Steady a b → Steady b c → Steady a c
Steady-trans a b c h k = (k.0 ∙ h.0, k.1 ∙ h.1)

call-Steady :
    {B : Type 0} (name : Text) (d : B) (f : DiskLogReader → B × DiskLogReader)
    (o : Option DiskLogReader) (a : App)
    → Steady a (call name d f o a).1
call-Steady name d f none a = (refl, refl)
call-Steady name d f (some r) a = (refl, refl)

with_reader-Steady :
    {B : Type 0} (name : Text) (d : B) (f : DiskLogReader → B × DiskLogReader) (a : App)
    → Steady a (with_reader name d f a).1
unfolding with_reader
with_reader-Steady name d f a = call-Steady name d f (lookup name a.disk_readers) a

choose-Steady : (b : Bool) (a x y : App) → Steady a x → Steady a y → Steady a (if b then x else y)
choose-Steady true a x y h k = h
choose-Steady false a x y h k = k

choose-Steady_second :
    (b : Bool) (a : App) (x y : ℕ × App)
    → Steady a x.1
    → Steady a y.1
    → Steady a (if b then x else y).1
choose-Steady_second true a x y h k = h
choose-Steady_second false a x y h k = k

line_count_for-Steady :
    (files : Files) (now : ℕ) (name : Text) (a : App) → Steady a (line_count_for files now name a).1
unfolding line_count_for total_line_count disk_line_count
line_count_for-Steady files now name a =
    choose-Steady_second (is_some a.filter) a _ _ (refl, refl) (with_reader-Steady name 0 _ a)

for_selected-Steady :
    (o : Option Text) (f : Text → App → App) (a : App)
    → ((name : Text) → Steady a (f name a))
    → Steady a (for_selected o f a)
for_selected-Steady none f a h = (refl, refl)
for_selected-Steady (some name) f a h = h name

pub scroll_up_by-Steady :
    (files : Files) (now lines : ℕ) (a : App) → Steady a (scroll_up_by files now lines a)
unfolding scroll_up_by
scroll_up_by-Steady files now lines a =
    let a' : App = record a { paused = true } in
    for_selected-Steady (selected_name a') (up_by files now lines) a'
      (λ name. line_count_for-Steady files now name a')

pub scroll_up-Steady : (files : Files) (now : ℕ) (a : App) → Steady a (scroll_up files now a)
unfolding scroll_up
scroll_up-Steady files now a = scroll_up_by-Steady files now _ a

pub scroll_down_by-Steady : (lines : ℕ) (a : App) → Steady a (scroll_down_by lines a)
unfolding scroll_down_by
scroll_down_by-Steady lines a =
    for_selected-Steady (selected_name a) (down_by lines) a
      (λ name. choose-Steady _ a _ _ (refl, refl) (refl, refl))

pub scroll_down-Steady : (a : App) → Steady a (scroll_down a)
unfolding scroll_down
scroll_down-Steady a = scroll_down_by-Steady _ a

pub scroll_to_top-Steady :
    (files : Files) (now : ℕ) (a : App) → Steady a (scroll_to_top files now a)
unfolding scroll_to_top
scroll_to_top-Steady files now a =
    let a' : App = record a { paused = true } in
    for_selected-Steady (selected_name a') (to_top files now) a'
      (λ name. line_count_for-Steady files now name a')

pub scroll_to_bottom-Steady : (a : App) → Steady a (scroll_to_bottom a)
unfolding scroll_to_bottom
scroll_to_bottom-Steady a = for_selected-Steady (selected_name a) to_bottom a (λ name. (refl, refl))

pub toggle_pause-Steady : (a : App) → Steady a (toggle_pause a)
unfolding toggle_pause
toggle_pause-Steady a =
    let a' : App = record a { paused = not a.paused } in
    choose-Steady (not a'.paused) a _ _
      (for_selected-Steady (selected_name a') forget_offset a' (λ name. (refl, refl))) (refl, refl)

build_for-Steady :
    (files : Files) (now : ℕ) (name : Text) (o : Option Text) (a : App)
    → Steady a (build_for files now name o a)
build_for-Steady files now name none a = (refl, refl)
build_for-Steady files now name (some filter) a =
    let scan = scan_matching_lines files now filter a.stream_mode in
    let count = disk_count files now a.stream_mode in
    let a' = (with_reader name [] scan a).1 in
    let a'' = (with_reader name 0 count a').1 in
    let both_kept =
      Steady-trans a a' a'' (with_reader-Steady name [] scan a)
        (with_reader-Steady name 0 count a') in
    (both_kept.0, both_kept.1)

build_all-Steady :
    (files : Files) (now : ℕ) (names : List Text) (a : App) → Steady a (build_all files now names a)
unfolding build_all build_filtered_index
build_all-Steady files now [] a = (refl, refl)
build_all-Steady files now (name ∷ names) a =
    let a' = build_filtered_index files now name a in
    Steady-trans a a' (build_all files now names a') (build_for-Steady files now name a.filter a)
      (build_all-Steady files now names a')

pub cycle_stream_mode-Steady :
    (files : Files) (now : ℕ) (a : App) → Steady a (cycle_stream_mode files now a)
unfolding cycle_stream_mode
cycle_stream_mode-Steady files now a =
    let a' : App = record a { stream_mode = next_mode a.stream_mode } in
    let names = keys a'.disk_readers in
    let h = build_all-Steady files now names a' in
    choose-Steady (is_some a.filter) a (build_all files now names a') a' (h.0, h.1) (refl, refl)

pub confirm_filter-Steady :
    (files : Files) (now : ℕ) (a : App) → Steady a (confirm_filter files now a)
unfolding confirm_filter
confirm_filter-Steady files now a =
    let a' : App = record a { input_mode = normal; filter = some a.filter_buf } in
    let names = keys a'.disk_readers in
    let cleared : App = record a { input_mode = normal; filter = none; filtered_indices = [] } in
    let h = build_all-Steady files now names a' in
    choose-Steady (length a.filter_buf == 0) a cleared (build_all files now names a') (refl, refl)
      (h.0, h.1)

update_with-Steady :
    (files : Files) (now : ℕ) (process : Text) (fi : FilteredIndex) (o : Option DiskLogReader)
    (a : App)
    → Steady a (update_with files now process fi o a)
update_with-Steady files now process fi none a = (refl, refl)
update_with-Steady files now process fi (some r) a =
    let (total, r') = disk_count files now fi.stream_mode r in
    elim (Bool-cases (leb total fi.scanned_up_to)) [
      | inl old ↦ rw old (refl, refl)
      | inr new ↦ rw new (refl, refl)
    ]

update_index-Steady :
    (files : Files) (now : ℕ) (process : Text) (o : Option FilteredIndex) (a : App)
    → Steady a (update_index files now process o a)
update_index-Steady files now process none a = (refl, refl)
update_index-Steady files now process (some fi) a =
    update_with-Steady files now process fi (lookup process a.disk_readers) a

pub push_output-Steady :
    (files : Files) (now : ℕ) (process : Text) (stream : Stream) (line : Text) (a : App)
    → Steady a (push_output files now process stream line a)
unfolding push_output update_filtered_index
push_output-Steady files now process stream line a =
    let old = unwrap_or (lookup process a.buffers) (new_buffer max_buffer_lines) in
    let a' : App = record a {
      buffers = insert process (push (source_of stream) line old) a.buffers;
    } in
    let h = update_index-Steady files now process (lookup process a'.filtered_indices) a' in
    choose-Steady (is_some a.filter) a (update_filtered_index files now process a') a' (h.0, h.1)
      (refl, refl)
