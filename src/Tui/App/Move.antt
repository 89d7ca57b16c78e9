-- ===== src/Tui/App/Move.antt =====
-- Selection, pausing and scrolling.
use agent_procs.Prelude.{
  ℕ, ◌+◌, ◌-◌, ◌/◌, ◌%◌, true, false, not, ◌&&◌, List, Option, none, some, Text, leb, ◌==◌,
  if◌then◌else◌, length, get_elem?, max, min, unwrap_or,
}
use agent_procs.Prelude.Maps.{lookup, insert, remove}
use agent_procs.Logs.Files.{Files}
use agent_procs.Protocol.{ProcessInfo}
use agent_procs.Tui.App.{App}
use agent_procs.Tui.App.Lines.{line_count_for}

unfoldable pub update_processes : List ProcessInfo → App → App
update_processes processes a =
    let a' = record a { processes = processes } in
    if leb (length processes) a.selected && not (length processes == 0)
    then record a' { selected = length processes - 1 }
    else a'

abbrev name_of : Option ProcessInfo → Option Text
name_of none = none
name_of (some p) = some p.name

unfoldable pub selected_name : App → Option Text
selected_name a = name_of (get_elem? a.processes a.selected)

unfoldable pub select_next : App → App
select_next a =
    if length a.processes == 0
    then a
    else record a { selected = (a.selected + 1) % length a.processes }

unfoldable pub select_prev : App → App
select_prev a =
    if length a.processes == 0
    then a
    else record a { selected = if a.selected == 0 then length a.processes - 1 else a.selected - 1 }

-- What is done for the selected process, when there is one.
abbrev pub for_selected : Option Text → (Text → App → App) → App → App
for_selected none f a = a
for_selected (some name) f a = f name a

abbrev pub forget_offset : Text → App → App
forget_offset name a = record a { scroll_offsets = remove name a.scroll_offsets }

unfoldable pub toggle_pause : App → App
unfolding selected_name
toggle_pause a =
    let a' = record a { paused = not a.paused } in
    if not a'.paused then for_selected (selected_name a') forget_offset a' else a'

abbrev offset_of : Text → App → ℕ
offset_of name a = unwrap_or (lookup name a.scroll_offsets) 0

abbrev pub set_offset : Text → ℕ → App → App
set_offset name offset a = record a { scroll_offsets = insert name offset a.scroll_offsets }

abbrev pub up_by : Files → ℕ → ℕ → Text → App → App
up_by files now lines name a =
    let (total, a') = line_count_for files now name a in
    let max_offset = total - a'.visible_height in
    set_offset name (min (offset_of name a' + lines) max_offset) a'

unfoldable pub scroll_up_by : Files → ℕ → ℕ → App → App
unfolding selected_name line_count_for
scroll_up_by files now lines a =
    let a' = record a { paused = true } in
    for_selected (selected_name a') (up_by files now lines) a'

abbrev half_page : App → ℕ
half_page a = max (a.visible_height / 2) 1

unfoldable pub scroll_up : Files → ℕ → App → App
unfolding scroll_up_by
scroll_up files now a = scroll_up_by files now (half_page a) a

abbrev pub down_by : ℕ → Text → App → App
down_by lines name a =
    let offset = offset_of name a - lines in
    let a' = set_offset name offset a in if offset == 0 then record a' { paused = false } else a'

unfoldable pub scroll_down_by : ℕ → App → App
unfolding selected_name
scroll_down_by lines a = for_selected (selected_name a) (down_by lines) a

unfoldable pub scroll_down : App → App
unfolding scroll_down_by
scroll_down a = scroll_down_by (half_page a) a

abbrev pub to_top : Files → ℕ → Text → App → App
to_top files now name a =
    let (total, a') = line_count_for files now name a in set_offset name total a'

unfoldable pub scroll_to_top : Files → ℕ → App → App
unfolding selected_name line_count_for
scroll_to_top files now a =
    let a' = record a { paused = true } in for_selected (selected_name a') (to_top files now) a'

abbrev pub to_bottom : Text → App → App
to_bottom name a = record (forget_offset name a) { paused = false }

unfoldable pub scroll_to_bottom : App → App
unfolding selected_name
scroll_to_bottom a = for_selected (selected_name a) to_bottom a

unfoldable pub quit : App → App
quit a = record a { running = false }

unfoldable pub quit_and_stop : App → App
quit_and_stop a = record a { stop_all_on_quit = true; running = false }
