-- ===== src/Tui/Events/Laws.antt =====
-- What holds in every state of the terminal interface.
use agent_procs.Tui.App.Filter.{
  start_filter, clear_filter, cancel_filter, cycle_stream_mode, confirm_filter, push_output,
}
use agent_procs.Prelude.{
  ℕ, ◌-◌, ◌<◌, ◌≡◌, refl, ap, ◌∙◌, ◌⊎◌, inl, inr, Bool, true, false, not, ◌&&◌, List, Option, none,
  some, Text, leb, ltb, ◌==◌, ==_iff, if◌then◌else◌, length, arith, Bool-cases,
}
use agent_procs.Logs.Files.{Files}
use agent_procs.Protocol.{ProcessInfo, Request}
use agent_procs.Tui.Keys.{KeyEvent, Action, FilterAction, handle_key, handle_filter_key}
use agent_procs.Tui.App.{App, InputMode, normal, filter_input}
use agent_procs.Tui.App.Move.{
  update_processes, select_next, select_prev, selected_name, quit, quit_and_stop, scroll_up_by,
  scroll_up, scroll_down_by, scroll_down, scroll_to_top, scroll_to_bottom, toggle_pause,
}
use agent_procs.Tui.App.Steady.{
  Steady, scroll_up_by-Steady, scroll_up-Steady, scroll_down_by-Steady, scroll_down-Steady,
  scroll_to_top-Steady, scroll_to_bottom-Steady, toggle_pause-Steady, cycle_stream_mode-Steady,
  confirm_filter-Steady, push_output-Steady,
}
use agent_procs.Tui.Events.{
  TuiEventLoop, AppEvent, MouseEvent, key, mouse, output_line, status_update, output_stream_closed,
  ReconnectState, connected, reconnecting, failed, act, edit, key_in, press, click, handle_mouse,
  wheel_up, wheel_down, other, left, add_readers, handle_event, handle_reconnect, try_again,
  reconnect, send_selected, max_reconnect_attempts, mouse_scroll_lines,
}

-- The selection names a process, when there are any.
abbrev pub Selected : App → Type 0
Selected a = (length a.processes ≡ 0) ⊎ (a.selected < length a.processes)

Steady-Selected : (a b : App) → Steady a b → Selected a → Selected b
Steady-Selected a b (p, s) (inl e) = inl (ap length p ∙ e)
Steady-Selected a b (p, s) (inr h) =
    let same : length b.processes ≡ length a.processes = ap length p in
    inr (omega (arith, same, s, h))

choose-Selected :
    (b : Bool) (x y : App)
    → (b ≡ true → Selected x)
    → (b ≡ false → Selected y)
    → Selected (if b then x else y)
choose-Selected true x y h k = h refl
choose-Selected false x y h k = k refl

update_processes-Selected : (ps : List ProcessInfo) (a : App) → Selected (update_processes ps a)
unfolding update_processes
update_processes-Selected ps a =
    choose-Selected (leb (length ps) a.selected && not (length ps == 0)) _ _
      (λ past. inr (ground (arith, past)))
      (λ inside. elim (Bool-cases (length ps == 0)) [
        | inl nothing ↦ inl ((==_iff (length ps) 0).0 nothing)
        | inr some_there ↦ inr (ground (arith, inside, some_there))
      ])

select_next-Selected : (a : App) → Selected a → Selected (select_next a)
unfolding select_next
select_next-Selected a h =
    choose-Selected (length a.processes == 0) a _ (λ nothing. h)
      (λ some_there.
        let positive : 0 < length a.processes = ground (arith, some_there) in
        inr (omega (arith, positive)))

select_prev-Selected : (a : App) → Selected a → Selected (select_prev a)
unfolding select_prev
select_prev-Selected a h =
    choose-Selected (length a.processes == 0) a _ (λ nothing. h)
      (λ some_there. inr (before some_there h))
  where
    before :
        (length a.processes == 0) ≡ false
        → Selected a
        → (if a.selected == 0 then length a.processes - 1 else a.selected - 1) < length a.processes
    before e (inl none_there) = absurd (ground (arith, e, none_there))
    before e (inr less) = ground (arith, e, less)

click-Selected : (column row : ℕ) (a : App) → Selected a → Selected (click column row a)
click-Selected column row a h =
    choose-Selected (ltb column 22 && ltb (row - 1) (length a.processes)) _ a
      (λ inside. inr (ground (arith, inside))) (λ outside. h)

start_filter-Selected : (a : App) → Selected a → Selected (start_filter a)
unfolding start_filter
start_filter-Selected a h = h

clear_filter-Selected : (a : App) → Selected a → Selected (clear_filter a)
unfolding clear_filter
clear_filter-Selected a h = h

cancel_filter-Selected : (a : App) → Selected a → Selected (cancel_filter a)
unfolding cancel_filter
cancel_filter-Selected a h = h

quit-Selected : (a : App) → Selected a → Selected (quit a)
unfolding quit
quit-Selected a h = h

quit_and_stop-Selected : (a : App) → Selected a → Selected (quit_and_stop a)
unfolding quit_and_stop
quit_and_stop-Selected a h = h

send_selected-Selected :
    (o : Option Text) (f : Text → Request) (t : TuiEventLoop)
    → Selected t.app
    → Selected (send_selected o f t).app
send_selected-Selected none f t h = h
send_selected-Selected (some name) f t h = h

try_again-Selected :
    (attempt : ℕ) (t : TuiEventLoop) → Selected t.app → Selected (try_again attempt t).app
try_again-Selected attempt t h = elim (Bool-cases (leb max_reconnect_attempts attempt)) [
  | inl over ↦ rw over h
  | inr again ↦ rw again h
]

act-Selected :
    (files : Files) (now : ℕ) (x : Action) (t : TuiEventLoop)
    → Selected t.app
    → Selected (act files now x t).app
act-Selected files now Action.select_next t h = select_next-Selected t.app h
act-Selected files now Action.select_prev t h = select_prev-Selected t.app h
act-Selected files now Action.cycle_stream t h =
    Steady-Selected t.app (cycle_stream_mode files now t.app)
      (cycle_stream_mode-Steady files now t.app) h
act-Selected files now Action.toggle_pause t h =
    Steady-Selected t.app (toggle_pause t.app) (toggle_pause-Steady t.app) h
act-Selected files now Action.scroll_up t h =
    Steady-Selected t.app (scroll_up files now t.app) (scroll_up-Steady files now t.app) h
act-Selected files now Action.scroll_down t h =
    Steady-Selected t.app (scroll_down t.app) (scroll_down-Steady t.app) h
act-Selected files now Action.scroll_to_top t h =
    Steady-Selected t.app (scroll_to_top files now t.app) (scroll_to_top-Steady files now t.app) h
act-Selected files now Action.scroll_to_bottom t h =
    Steady-Selected t.app (scroll_to_bottom t.app) (scroll_to_bottom-Steady t.app) h
act-Selected files now Action.start_filter t h = start_filter-Selected t.app h
act-Selected files now Action.clear_filter t h = clear_filter-Selected t.app h
act-Selected files now Action.quit t h = quit-Selected t.app h
act-Selected files now Action.quit_and_stop t h = quit_and_stop-Selected t.app h
act-Selected files now Action.stop t h =
    send_selected-Selected (selected_name t.app) Request.stop t h
act-Selected files now Action.stop_all t h = h
act-Selected files now Action.restart t h =
    send_selected-Selected (selected_name t.app) Request.restart t h
act-Selected files now Action.nothing t h = h

edit-Selected :
    (files : Files) (now : ℕ) (x : FilterAction) (a : App)
    → Selected a
    → Selected (edit files now x a)
edit-Selected files now (FilterAction.char c) a h = h
edit-Selected files now FilterAction.backspace a h = h
edit-Selected files now FilterAction.confirm a h =
    Steady-Selected a (confirm_filter files now a) (confirm_filter-Steady files now a) h
edit-Selected files now FilterAction.cancel a h = cancel_filter-Selected a h

key_in-Selected :
    (files : Files) (now : ℕ) (mode : InputMode) (k : KeyEvent) (t : TuiEventLoop)
    → Selected t.app
    → Selected (key_in files now mode k t).app
key_in-Selected files now filter_input k t h = edit-Selected files now (handle_filter_key k) t.app h
key_in-Selected files now normal k t h = act-Selected files now (handle_key k) t h

handle_mouse-Selected :
    (files : Files) (now : ℕ) (m : MouseEvent) (a : App)
    → Selected a
    → Selected (handle_mouse files now m a)
unfolding handle_mouse
handle_mouse-Selected files now wheel_up a h =
    Steady-Selected a (scroll_up_by files now mouse_scroll_lines a)
      (scroll_up_by-Steady files now mouse_scroll_lines a) h
handle_mouse-Selected files now wheel_down a h =
    Steady-Selected a (scroll_down_by mouse_scroll_lines a)
      (scroll_down_by-Steady mouse_scroll_lines a) h
handle_mouse-Selected files now (left column row) a h = click-Selected column row a h
handle_mouse-Selected files now other a h = h

reconnect-Selected :
    (s : ReconnectState) (t : TuiEventLoop) → Selected t.app → Selected (reconnect s t).app
reconnect-Selected connected t h = try_again-Selected 0 t h
reconnect-Selected (reconnecting attempt) t h = try_again-Selected attempt t h
reconnect-Selected failed t h = h

-- After every event, the selection still names a process, when there are any: whatever the key, the
-- mouse event, the new list of processes or the line of output.
pub handle_event-Selected :
    (files : Files) (now : ℕ) (log_dir : Text) (e : AppEvent) (t : TuiEventLoop)
    → Selected t.app
    → Selected (handle_event files now log_dir e t).app
unfolding handle_event press handle_reconnect
handle_event-Selected files now log_dir (key k) t h = key_in-Selected files now _ k t h
handle_event-Selected files now log_dir (mouse m) t h = handle_mouse-Selected files now m t.app h
handle_event-Selected files now log_dir (output_line process stream line) t h =
    Steady-Selected t.app (push_output files now process stream line t.app)
      (push_output-Steady files now process stream line t.app) h
handle_event-Selected files now log_dir (status_update ps) t h =
    update_processes-Selected ps (add_readers log_dir ps t.app)
handle_event-Selected files now log_dir output_stream_closed t h =
    reconnect-Selected t.reconnect_state t h
