-- ===== src/Tui/App.antt =====
-- src/tui/app.rs: the state of the terminal interface.
pub mod Move
pub mod Lines
pub mod Filter
pub mod Rescan
pub mod Steady
pub mod Scroll
pub mod Window
pub mod OnDisk
use agent_procs.Prelude.{ℕ, Bool, true, false, List, [], Option, none, some, Text}
use agent_procs.Prelude.Maps.{Map}
use agent_procs.Protocol.{ProcessInfo}
use agent_procs.Tui.Buffer.{OutputBuffer, StreamMode}
use agent_procs.Tui.Disk.Discover.{DiskLogReader}

pub record FilteredIndex : Type 0 where
  pub filter : Text
  pub stream_mode : StreamMode
  pub matching_lines : List ℕ
  pub scanned_up_to : ℕ

pub data InputMode : Type 0 where
  normal filter_input : InputMode

pub record App : Type 0 where
  pub processes : List ProcessInfo
  pub selected : ℕ
  pub buffers : Map OutputBuffer
  pub stream_mode : StreamMode
  pub paused : Bool
  pub scroll_offsets : Map ℕ
  pub running : Bool
  pub stop_all_on_quit : Bool
  pub input_mode : InputMode
  pub filter_buf : Text
  pub filter : Option Text
  pub visible_height : ℕ
  pub disk_readers : Map DiskLogReader
  pub filtered_indices : Map FilteredIndex

unfoldable pub new_app : App
new_app = record {
  processes = [];
  selected = 0;
  buffers = [];
  stream_mode = StreamMode.stdout;
  paused = false;
  scroll_offsets = [];
  running = true;
  stop_all_on_quit = false;
  input_mode = normal;
  filter_buf = [];
  filter = none;
  visible_height = 20;
  disk_readers = [];
  filtered_indices = [];
}
