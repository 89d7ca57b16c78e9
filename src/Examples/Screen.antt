-- ===== src/Examples/Screen.antt =====
-- The terminal interface at a process with two lines in its buffer and three on disk.
use agent_procs.Prelude.{
  ◌+◌, ◌-◌, ◌++◌, ◌≤◌, ◌≡◌, refl, true, false, [], ◌∷◌, some, none, Text, bytes, take, drop, min,
  unwrap_or, arith, inr,
}
use agent_procs.Prelude.Texts.{text_eq, contains, starts_with}
use agent_procs.Prelude.Maps.{lookup}
use agent_procs.Protocol.{ProcessInfo, ProcessState}
use agent_procs.Tui.Buffer.{stdout, stderr, StreamMode, OutputBuffer, stdout_lines}
use agent_procs.Tui.Disk.Scan.{matches}
use agent_procs.Tui.App.{App, FilteredIndex, InputMode, filter_input}
use agent_procs.Tui.App.Lines.{visible_lines, line_count_for, scroll_offset}
use agent_procs.Tui.App.Move.{scroll_up_by, scroll_to_top, selected_name}
use agent_procs.Tui.App.Filter.{update_filtered_index}
use agent_procs.Tui.App.Window.{visible_lines-window, Last}
use agent_procs.Tui.App.OnDisk.{disk_lines}
use agent_procs.Tui.App.Rescan.{update_filtered_index-rescanned, rescanned, lines_in}
use agent_procs.Tui.App.Scroll.{scroll_up_by_lem, scroll_to_top_lem}
use agent_procs.Tui.Keys.{KeyCode}
use agent_procs.Tui.Events.Typing.{handle_all, typing, erasing, utf8, with_filter, typing-erasing}
use agent_procs.Tui.Events.{TuiEventLoop, connected, key, handle_event}
use agent_procs.Tui.Events.Laws.{Selected, handle_event-Selected}
use agent_procs.Examples.Disk.{files, fresh_reader, outs, errs, out-Shelved, err-Shelved}

abbrev web : Text
web = bytes "web"

abbrev info : ProcessInfo
info = record {
  name = web;
  id = bytes "p1";
  pid = 10;
  state = ProcessState.running;
  exit_code = none;
  uptime_secs = some 1;
  command = bytes "serve";
  port = none;
  url = none;
  restart_count = none;
  max_restarts = none;
  restart_policy = none;
  watched = none;
}

abbrev buffer : OutputBuffer
buffer = record {
  lines = (stdout, bytes "ready") ∷ (stderr, bytes "warn") ∷ (stdout, bytes "get /") ∷ [];
  max_lines = 3;
  stdout_count = 2;
  stderr_count = 1;
}

abbrev index : FilteredIndex
index = record {
  filter = bytes "e";
  stream_mode = StreamMode.stdout;
  matching_lines = 1 ∷ [];
  scanned_up_to = 2;
}

abbrev screen : App
screen = record {
  processes = info ∷ info ∷ [];
  selected = 1;
  buffers = (web, buffer) ∷ [];
  stream_mode = StreamMode.stdout;
  paused = false;
  scroll_offsets = [];
  running = true;
  stop_all_on_quit = false;
  input_mode = InputMode.normal;
  filter_buf = [];
  filter = none;
  visible_height = 2;
  disk_readers = (web, fresh_reader) ∷ [];
  filtered_indices = (web, index) ∷ [];
}

the_reader : lookup web screen.disk_readers ≡ some fresh_reader
unfolding lookup text_eq
the_reader = refl

the_buffer : lookup web screen.buffers ≡ some buffer
unfolding lookup text_eq
the_buffer = refl

the_index : lookup web screen.filtered_indices ≡ some index
unfolding lookup text_eq
the_index = refl

last :
    Last files 0 web fresh_reader buffer outs errs screen the_reader the_buffer out-Shelved
      err-Shelved
unfolding stdout_lines
last = (omega arith, refl)

scanned :
    index.matching_lines
    ≡ matches index.filter 0 (take 2 (lines_in files outs errs StreamMode.stdout))
unfolding matches contains starts_with
scanned = refl

visible_lines-window_example :
    (visible_lines files 0 web 2 screen).0
    ≡ take
        (3 - scroll_offset web screen - (3 - scroll_offset web screen - 2))
        (drop (3 - scroll_offset web screen - 2) (disk_lines files outs errs StreamMode.stdout))
visible_lines-window_example =
    visible_lines-window files 0 web fresh_reader buffer outs errs screen the_reader the_buffer
      out-Shelved err-Shelved 2 refl last

update_filtered_index-rescanned_example :
    lookup web (update_filtered_index files 0 web screen).filtered_indices
    ≡ some (rescanned index (lines_in files outs errs StreamMode.stdout))
update_filtered_index-rescanned_example =
    update_filtered_index-rescanned files 0 web screen fresh_reader index outs errs the_reader
      the_index out-Shelved err-Shelved (omega arith) scanned

selected_web : selected_name screen ≡ some web
unfolding selected_name
selected_web = refl

scroll_up_by_lem_example :
    unwrap_or (lookup web (scroll_up_by files 0 5 screen).scroll_offsets) 0
      + min
          (line_count_for files 0 web (record screen { paused = true })).0
          (scroll_up_by files 0 5 screen).visible_height
    ≤ (line_count_for files 0 web (record screen { paused = true })).0
scroll_up_by_lem_example = scroll_up_by_lem files 0 5 screen web selected_web

scroll_to_top_lem_example : (visible_lines files 0 web 2 (scroll_to_top files 0 screen)).0 ≡ []
scroll_to_top_lem_example = scroll_to_top_lem files 0 web 2 screen refl selected_web

abbrev looping : TuiEventLoop
looping = record { app = screen; reconnect_state = connected; sent = []; delays = [] }

handle_event-Selected_example :
    Selected
      (handle_event files 0
        (bytes "/l")
        (key (record { code = KeyCode.down; control = false }))
        looping).app
handle_event-Selected_example =
    handle_event-Selected files 0 (bytes "/l")
      (key (record { code = KeyCode.down; control = false })) looping (inr (omega arith))

abbrev filtering : TuiEventLoop
filtering = record looping { app = record looping.app { input_mode = filter_input } }

typing-erasing_example :
    (handle_all files 0 (bytes "/l") (typing (b'a' ∷ 233 ∷ [])) filtering
      ≡ with_filter (λ s. s ++ utf8 (b'a' ∷ 233 ∷ [])) filtering)
    × (handle_all files 0
          (bytes "/l")
          (typing (b'a' ∷ 233 ∷ []) ++ erasing (b'a' ∷ 233 ∷ []))
          filtering
        ≡ filtering)
typing-erasing_example = typing-erasing files 0 (bytes "/l") (b'a' ∷ 233 ∷ []) filtering refl
