-- ===== src/Tui/App/Window.antt =====
-- Where the buffer holds the last lines of the disk, the visible window is a window of the lines on
-- disk.
use agent_procs.Prelude.{
  ℕ, ◌+◌, ◌-◌, ◌≤◌, ◌≡◌, refl, sym, ap, ◌∙◌, Bool, false, List, [], ◌++◌, none, some, Text, is_some,
  leb, ◌==◌, ==_iff, if◌then◌else◌, length, take, drop, drop-drop, max, arith, Bool-cases, inl, inr,
}
use agent_procs.Prelude.Maps.{lookup, lookup-adjust}
use agent_procs.Logs.Files.{Files}
use agent_procs.Tui.Buffer.{stdout, stderr, OutputBuffer}
use agent_procs.Tui.Disk.Segment.Laws.{Stored}
use agent_procs.Tui.Disk.Discover.{DiskLogReader}
use agent_procs.Tui.Disk.Fresh.{settled}
use agent_procs.Tui.Disk.Scan.Laws.{Shelved}
use agent_procs.Tui.App.{App}
use agent_procs.Tui.App.Lines.{
  Line, lines_by, count_by, hot_line_count, hot_count, disk_count, disk_line_count,
  total_line_count, disk_range, disk_read_range, scroll_offset, window_lines, visible_lines,
  hot_buffer_range, hot_range, filtered_visible_lines,
}
use agent_procs.Tui.App.OnDisk.{
  disk_lines, take-plus, disk_range-settled, first_count, second_count, put_reader,
  with_reader-some,
}

module _ (files : Files) (now : ℕ) (name : Text) (r : DiskLogReader) (b : OutputBuffer)
    (ps qs : List Stored) (a : App) (er : lookup name a.disk_readers ≡ some r)
    (eb : lookup name a.buffers ≡ some b) (hp : Shelved files now stdout r ps)
    (hq : Shelved files now stderr r qs) where
  abbrev lines : List Line
  lines = disk_lines files ps qs a.stream_mode

  abbrev hot : ℕ
  hot = count_by a.stream_mode b

  abbrev first : App
  first = put_reader name (settled files now r) a

  abbrev second : App
  second = put_reader name (settled files now r) first

  first_reader : lookup name first.disk_readers ≡ some (settled files now r)
  first_reader = lookup-adjust name (λ old. settled files now r) r a.disk_readers er

  second_reader : lookup name second.disk_readers ≡ some (settled files now r)
  second_reader =
      lookup-adjust name (λ old. settled files now r) (settled files now r) first.disk_readers
        first_reader

  total : total_line_count files now name a ≡ (max (length lines) hot, first)
  unfolding total_line_count disk_line_count hot_line_count
  total =
      ap (λ p. (max p.0 (hot_count a.stream_mode none (lookup name a.buffers)), p.1))
        (with_reader-some name 0 (length lines) (disk_count files now a.stream_mode) r
          (settled files now r) a er (first_count files now r ps qs hp hq a.stream_mode))
      ∙ ap (λ o. (max (length lines) (hot_count a.stream_mode none o), first)) eb

  again : disk_line_count files now name first ≡ (length lines, second)
  unfolding disk_line_count
  again =
      with_reader-some name 0 (length lines) (disk_count files now a.stream_mode)
        (settled files now r) (settled files now r) first first_reader
        (second_count files now r ps qs hp hq a.stream_mode)

  read_second :
      (start count : ℕ)
      → disk_read_range files now name start count second
        ≡ (take count (drop start lines), put_reader name (settled files now r) second)
  unfolding disk_read_range
  read_second start count =
      with_reader-some name [] (take count (drop start lines))
        (disk_range files now a.stream_mode start count) (settled files now r) (settled files now r)
        second second_reader (disk_range-settled files now r ps qs hp hq a.stream_mode start count)

  -- The buffer holds the last of the lines on disk.
  abbrev pub Last : Type 0
  Last = (hot ≤ length lines) × (lines_by a.stream_mode b ≡ drop (length lines - hot) lines)

  read_hot :
      (start count : ℕ) (c : App)
      → Last
      → lookup name c.buffers ≡ some b
      → c.stream_mode ≡ a.stream_mode
      → hot_buffer_range name start count c ≡ take count (drop (length lines - hot + start) lines)
  unfolding hot_buffer_range
  read_hot start count c h e m =
      ap (hot_range c.stream_mode start count) e
      ∙ ap (λ mode. take count (drop start (lines_by mode b))) m
      ∙ ap (λ l. take count (drop start l)) h.1
      ∙ ap (take count) (drop-drop start (length lines - hot) lines)

  window :
      (from to : ℕ)
      → Last
      → from ≤ to
      → (window_lines files now name (length lines - hot) from to second).0
        ≡ take (to - from) (drop from lines)
  unfolding window_lines
  window from to h o =
      let boundary = length lines - hot in
      elim (Bool-cases (leb boundary from)) [
        | inl in_buffer ↦
            let start : boundary + (from - boundary) ≡ from = ground (arith, in_buffer) in
            rw in_buffer (
              read_hot (from - boundary) (to - from) second h eb refl
              ∙ ap (λ k. take (to - from) (drop k lines)) start)
        | inr before ↦ elim (Bool-cases (leb to boundary)) [
          | inl on_disk ↦ rw (before, on_disk) (ap (λ p. p.0) (read_second from (to - from)))
          | inr split ↦
              let start : boundary + 0 ≡ from + (boundary - from) = ground (arith, before) in
              let size : boundary - from + (to - boundary) ≡ to - from =
                ground (arith, before, split, o) in
              rw (before, split)
                (ap (λ p. p.0 ++ hot_buffer_range name 0 (to - boundary) p.1)
                    (read_second from (boundary - from))
                  ∙ ap (λ l. take (boundary - from) (drop from lines) ++ l)
                      (read_hot 0 (to - boundary) (put_reader name (settled files now r) second) h
                          eb refl
                        ∙ ap (λ k. take (to - boundary) (drop k lines)) start
                        ∙ ap (take (to - boundary)) (sym (drop-drop (boundary - from) from lines)))
                  ∙ take-plus (boundary - from) (to - boundary) (drop from lines)
                  ∙ ap (λ k. take k (drop from lines)) size)
        ]
      ]

  shown :
      (end height : ℕ)
      → Last
      → (if end - (end - height) == 0
          then ([], first)
          else window_lines files now name (length lines - hot) (end - height) end second).0
        ≡ take (end - (end - height)) (drop (end - height) lines)
  shown end height h = elim (Bool-cases (end - (end - height) == 0)) [
    | inl nothing ↦
        let none_left = (==_iff (end - (end - height)) 0).0 nothing in
        rw nothing (ap (λ k. take k (drop (end - height) lines)) (sym none_left))
    | inr something ↦ rw something (window (end - height) end h (omega arith))
  ]

  shape : Bool → ℕ × App → ℕ × App → ℕ → ℕ → List Line
  shape filtered p q hot_len height =
      let window_end = p.0 - scroll_offset name p.1 in
      let window_start = window_end - height in
      (if filtered
        then filtered_visible_lines files now name height a
        else if window_end - window_start == 0
        then ([], p.1)
        else window_lines files now name (q.0 - hot_len) window_start window_end q.1).0

  -- Without a filter, the visible lines are a window of the lines on disk: the last `height` lines
  -- before the scroll offset. Whether a line comes from the disk or from the buffer does not show,
  -- if the buffer holds the last of the lines on disk.
  pub visible_lines-window :
      (height : ℕ)
      → a.filter ≡ none
      → Last
      → (visible_lines files now name height a).0
        ≡ take
            (length lines - scroll_offset name a - (length lines - scroll_offset name a - height))
            (drop (length lines - scroll_offset name a - height) lines)
  unfolding visible_lines shape hot_line_count
  visible_lines-window height no_filter h =
      let p = total_line_count files now name a in
      let end = length lines - scroll_offset name a in
      let largest : max (length lines) hot ≡ length lines = omega (arith, h.0) in
      ap
        (λ f.
          shape (is_some f) p (disk_line_count files now name p.1) (hot_line_count name none p.1)
            height)
        no_filter
      ∙ ap
          (λ p.
            shape false p (disk_line_count files now name p.1) (hot_line_count name none p.1)
              height)
          total
      ∙ ap
          (λ q.
            shape false (max (length lines) hot, first) q (hot_line_count name none first) height)
          again
      ∙ ap
          (λ o.
            shape false (max (length lines) hot, first) (length lines, second)
              (hot_count a.stream_mode none o) height)
          eb
      ∙ ap (λ n. shape false (n, first) (length lines, second) hot height) largest
      ∙ shown end height h
