-- ===== src/Tui/Events.antt =====
-- src/tui/event_loop.rs: what the terminal interface does with an event. Its requests to the daemon
-- and the readers of the output stream that it starts again are effects.
pub mod Laws
pub mod Typing
use agent_procs.Prelude.{
  ℕ, ◌+◌, ◌-◌, ◌^◌, Bool, true, false, ◌&&◌, List, [], ◌∷◌, ◌++◌, Option, none, some, Text, leb,
  ltb, if◌then◌else◌, length, min,
}
use agent_procs.Prelude.Maps.{Map, insert, has_key}
use agent_procs.Logs.Files.{Files}
use agent_procs.Protocol.{Request, ProcessInfo, Stream}
use agent_procs.Tui.Keys.{
  KeyEvent, Action, FilterAction, handle_key, handle_filter_key, push_char, pop_char,
}
use agent_procs.Tui.Disk.Discover.{new_reader}
use agent_procs.Tui.App.{App, InputMode, normal, filter_input}
use agent_procs.Tui.App.Move.{
  update_processes, selected_name, select_next, select_prev, toggle_pause, scroll_up_by, scroll_up,
  scroll_down_by, scroll_down, scroll_to_top, scroll_to_bottom, quit, quit_and_stop,
}
use agent_procs.Tui.App.Filter.{
  cycle_stream_mode, start_filter, confirm_filter, cancel_filter, clear_filter, push_output,
}

pub data MouseEvent : Type 0 where
  wheel_up wheel_down other : MouseEvent
  left : (column row : ℕ) → MouseEvent

pub data AppEvent : Type 0 where
  key : KeyEvent → AppEvent
  mouse : MouseEvent → AppEvent
  output_line : (process : Text) (stream : Stream) (line : Text) → AppEvent
  status_update : List ProcessInfo → AppEvent
  output_stream_closed : AppEvent

pub data ReconnectState : Type 0 where
  connected failed : ReconnectState
  reconnecting : (attempt : ℕ) → ReconnectState

abbrev pub max_reconnect_attempts : ℕ
max_reconnect_attempts = 10

-- `sent` are the requests to the daemon, `delays` those of the readers started again, in seconds.
pub record TuiEventLoop : Type 0 where
  pub app : App
  pub reconnect_state : ReconnectState
  pub sent : List Request
  pub delays : List ℕ

abbrev pub on_app : (App → App) → TuiEventLoop → TuiEventLoop
on_app f t = record t { app = f t.app }

abbrev pub send : Request → TuiEventLoop → TuiEventLoop
send r t = record t { sent = t.sent ++ r ∷ [] }

abbrev pub send_selected : Option Text → (Text → Request) → TuiEventLoop → TuiEventLoop
send_selected none f t = t
send_selected (some name) f t = send (f name) t

abbrev pub act : Files → ℕ → Action → TuiEventLoop → TuiEventLoop
act files now Action.select_next t = on_app select_next t
act files now Action.select_prev t = on_app select_prev t
act files now Action.cycle_stream t = on_app (cycle_stream_mode files now) t
act files now Action.toggle_pause t = on_app toggle_pause t
act files now Action.scroll_up t = on_app (scroll_up files now) t
act files now Action.scroll_down t = on_app scroll_down t
act files now Action.scroll_to_top t = on_app (scroll_to_top files now) t
act files now Action.scroll_to_bottom t = on_app scroll_to_bottom t
act files now Action.start_filter t = on_app start_filter t
act files now Action.clear_filter t = on_app clear_filter t
act files now Action.quit t = on_app quit t
act files now Action.quit_and_stop t = on_app quit_and_stop t
act files now Action.stop t = send_selected (selected_name t.app) Request.stop t
act files now Action.stop_all t = send Request.stop_all t
act files now Action.restart t = send_selected (selected_name t.app) Request.restart t
act files now Action.nothing t = t

abbrev pub edit : Files → ℕ → FilterAction → App → App
edit files now (FilterAction.char c) a = record a { filter_buf = push_char a.filter_buf c }
edit files now FilterAction.backspace a = record a { filter_buf = pop_char a.filter_buf }
edit files now FilterAction.confirm a = confirm_filter files now a
edit files now FilterAction.cancel a = cancel_filter a

abbrev pub key_in : Files → ℕ → InputMode → KeyEvent → TuiEventLoop → TuiEventLoop
key_in files now filter_input k t = on_app (edit files now (handle_filter_key k)) t
key_in files now normal k t = act files now (handle_key k) t

-- `TuiEventLoop::handle_key`
unfoldable pub press : Files → ℕ → KeyEvent → TuiEventLoop → TuiEventLoop
press files now k t = key_in files now t.app.input_mode k t

abbrev pub mouse_scroll_lines : ℕ
mouse_scroll_lines = 3

abbrev pub click : ℕ → ℕ → App → App
click column row a =
    if ltb column 22 && ltb (row - 1) (length a.processes)
    then record a { selected = row - 1 }
    else a

unfoldable pub handle_mouse : Files → ℕ → MouseEvent → App → App
handle_mouse files now wheel_up a = scroll_up_by files now mouse_scroll_lines a
handle_mouse files now wheel_down a = scroll_down_by mouse_scroll_lines a
handle_mouse files now (left column row) a = click column row a
handle_mouse files now other a = a

abbrev pub try_again : ℕ → TuiEventLoop → TuiEventLoop
try_again attempt t =
    if leb max_reconnect_attempts attempt then record t { reconnect_state = failed } else record t {
      reconnect_state = reconnecting (attempt + 1);
      delays = t.delays ++ min (2 ^ attempt) 30 ∷ [];
    }

abbrev pub reconnect : ReconnectState → TuiEventLoop → TuiEventLoop
reconnect connected t = try_again 0 t
reconnect (reconnecting attempt) t = try_again attempt t
reconnect failed t = t

unfoldable pub handle_reconnect : TuiEventLoop → TuiEventLoop
handle_reconnect t = reconnect t.reconnect_state t

-- A reader for each process that has none.
unfoldable pub add_readers : Text → List ProcessInfo → App → App
add_readers log_dir [] a = a
add_readers log_dir (p ∷ ps) a =
    let a' =
      if has_key p.name a.disk_readers
      then a
      else record a { disk_readers = insert p.name (new_reader log_dir p.name) a.disk_readers } in
    add_readers log_dir ps a'

-- One turn of `run`, after the screen is drawn.
unfoldable pub handle_event : Files → ℕ → Text → AppEvent → TuiEventLoop → TuiEventLoop
unfolding press handle_mouse handle_reconnect add_readers
handle_event files now log_dir (key k) t = press files now k t
handle_event files now log_dir (mouse m) t = on_app (handle_mouse files now m) t
handle_event files now log_dir (output_line process stream line) t =
    record (on_app (push_output files now process stream line) t) { reconnect_state = connected }
handle_event files now log_dir (status_update processes) t =
    on_app (λ a. update_processes processes (add_readers log_dir processes a)) t
handle_event files now log_dir output_stream_closed t = handle_reconnect t

-- `while app.running`, over the events that come, and the shutdown request at the end.
unfoldable pub run : Files → ℕ → Text → List AppEvent → TuiEventLoop → TuiEventLoop
unfolding handle_event
run files now log_dir [] t = t
run files now log_dir (e ∷ es) t =
    let rest = run files now log_dir es (handle_event files now log_dir e t) in
    let last = if t.app.stop_all_on_quit then send Request.shutdown t else t in
    if t.app.running then rest else last
