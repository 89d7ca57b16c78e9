-- ===== src/Tui/App/Scroll.antt =====
-- How far the view scrolls.
use agent_procs.Prelude.{
  ℕ, ◌+◌, ◌-◌, ◌≤◌, ◌≡◌, refl, sym, ap, ◌∙◌, Bool, true, false, List, [], Option, none, some, Text,
  is_some, unwrap_or, ◌==◌, if◌then◌else◌, min, max, arith, text_eq_refl, subst,
}
use agent_procs.Prelude.Maps.{Map, lookup, insert, lookup-insert, lookup-adjust}
use agent_procs.Logs.Files.{Files}
use agent_procs.Tui.Buffer.{stdout, stderr, StreamMode, both}
use agent_procs.Tui.Disk.Discover.{
  DiskLogReader, segments, line_count, line_count_both, count_of, of_source,
}
use agent_procs.Tui.Disk.Fresh.{current, settled, segments-settled}
use agent_procs.Tui.App.{App}
use agent_procs.Tui.App.Lines.{
  Line, hot_line_count, with_reader, call, disk_count, disk_line_count, total_line_count,
  line_count_for, scroll_offset, visible_lines, matching_count,
}
use agent_procs.Tui.App.Move.{
  selected_name, for_selected, up_by, to_top, set_offset, scroll_up_by, scroll_to_top,
}

lookup-insert_same : {V : Type 0} (k : Text) (v : V) (m : Map V) → lookup k (insert k v m) ≡ some v
lookup-insert_same k v m =
    lookup-insert k k v m ∙ ap (λ b. if b then some v else lookup k m) (text_eq_refl k)

-- Scrolling up stops at the first line: as many lines as the window has stay visible, or all there
-- are.
pub scroll_up_by_lem :
    (files : Files) (now lines : ℕ) (a : App) (name : Text)
    → selected_name a ≡ some name
    → unwrap_or (lookup name (scroll_up_by files now lines a).scroll_offsets) 0
        + min
            (line_count_for files now name (record a { paused = true })).0
            (scroll_up_by files now lines a).visible_height
      ≤ (line_count_for files now name (record a { paused = true })).0
unfolding scroll_up_by selected_name
scroll_up_by_lem files now lines a name e =
    let a' : App = record a { paused = true } in
    let p = line_count_for files now name a' in
    subst
      (λ o.
        unwrap_or (lookup name (for_selected o (up_by files now lines) a').scroll_offsets) 0
          + min p.0 (for_selected o (up_by files now lines) a').visible_height
        ≤ p.0)
      (sym e)
      (let offset =
          min (unwrap_or (lookup name p.1.scroll_offsets) 0 + lines) (p.0 - p.1.visible_height) in
        let stored = lookup-insert_same name offset p.1.scroll_offsets in rw stored (omega arith))

abbrev size : Files → ℕ → StreamMode → DiskLogReader → ℕ
size files now StreamMode.stdout r = count_of (of_source stdout (current files now r))
size files now StreamMode.stderr r = count_of (of_source stderr (current files now r))
size files now both r =
    count_of (of_source stdout (current files now r))
    + count_of (of_source stderr (current files now r))

module _ (files : Files) (now : ℕ) (r : DiskLogReader) where
  abbrev settle : DiskLogReader
  settle = settled files now r

  count_settled :
      (mode : StreamMode) → disk_count files now mode settle ≡ (size files now mode r, settle)
  unfolding line_count line_count_both
  count_settled StreamMode.stdout =
      ap (λ p. (count_of p.0, p.1)) (segments-settled files now stdout r)
  count_settled StreamMode.stderr =
      ap (λ p. (count_of p.0, p.1)) (segments-settled files now stderr r)
  count_settled both =
      ap
        (λ p. (
          count_of p.0 + count_of (segments files now stderr p.1).0,
          (segments files now stderr p.1).1,
        ))
        (segments-settled files now stdout r)
      ∙ ap (λ p. (count_of (of_source stdout (current files now r)) + count_of p.0, p.1))
          (segments-settled files now stderr r)

  count_first : (mode : StreamMode) → disk_count files now mode r ≡ (size files now mode r, settle)
  unfolding line_count line_count_both segments
  count_first StreamMode.stdout = refl
  count_first StreamMode.stderr = refl
  count_first both =
      ap (λ p. (count_of (of_source stdout (current files now r)) + count_of p.0, p.1))
        (err_after files now r)
    where
      err_after :
          (files : Files) (now : ℕ) (r : DiskLogReader)
          → segments files now stderr (settled files now r)
            ≡ (of_source stderr (current files now r), settled files now r)
      err_after files now r = segments-settled files now stderr r

-- Counting again gives the same number, whatever the scroll offsets and the pause are by then.
module _ (files : Files) (now : ℕ) (name : Text) where
  abbrev counted : StreamMode → Option DiskLogReader → App → ℕ × App
  counted mode o a = call name 0 (disk_count files now mode) o a

  count_again :
      (mode : StreamMode) (o : Option DiskLogReader) (a b : App)
      → lookup name a.disk_readers ≡ o
      → b.disk_readers ≡ (counted mode o a).1.disk_readers
      → (counted mode (lookup name b.disk_readers) b).0 ≡ (counted mode o a).0
  count_again mode none a b e h =
      ap (λ m. (counted mode (lookup name m) b).0) h ∙ ap (λ x. (counted mode x b).0) e
  count_again mode (some r) a b e h =
      ap (λ m. (counted mode (lookup name m) b).0) h
      ∙ ap (λ x. (counted mode x b).0)
          (lookup-adjust name (λ old. (disk_count files now mode r).1) r a.disk_readers e)
      ∙ ap (λ p. (disk_count files now mode p.1).0) (count_first files now r mode)
      ∙ ap (λ p. p.0) (count_settled files now r mode ∙ sym (count_first files now r mode))

  call-disk_readers :
      (mode : StreamMode) (o : Option DiskLogReader) (a : App)
      → (counted mode o a).1 ≡ record a { disk_readers = (counted mode o a).1.disk_readers }
  call-disk_readers mode none a = refl
  call-disk_readers mode (some r) a = refl

  hot_total : App → ℕ → ℕ
  hot_total a disk = max disk (hot_line_count name none a)

  nothing_left :
      (height total offset : ℕ) (f : Bool) (x y : List Line × App) (q : App)
      → f ≡ false
      → offset ≡ total
      → (if f then x else if total - offset - (total - offset - height) == 0 then ([], q) else y).0
        ≡ []
  nothing_left height total offset f x y q no_filter e =
      let zero_left : (total - offset - (total - offset - height) == 0) ≡ true =
        ground (arith, e) in
      rw (no_filter, zero_left) refl

  at_top :
      (height : ℕ) (a : App)
      → a.filter ≡ none
      → a.paused ≡ true
      → (visible_lines files now name height (to_top files now name a)).0 ≡ []
  unfolding visible_lines line_count_for total_line_count disk_line_count with_reader hot_total
      hot_line_count
  at_top height a n p =
      let mode = a.stream_mode in
      let o = lookup name a.disk_readers in
      let total = hot_total a (counted mode o a).0 in
      let readers = (counted mode o a).1.disk_readers in
      let b = set_offset name total (record a { disk_readers = readers }) in
      let q = counted mode (lookup name readers) b in
      let scrolled : scroll_offset name q.1 ≡ total =
        ap (scroll_offset name) (call-disk_readers mode (lookup name readers) b)
        ∙ ap (λ t. if t then unwrap_or (lookup name b.scroll_offsets) 0 else 0) p
        ∙ ap (λ s. unwrap_or s 0) (lookup-insert_same name total a.scroll_offsets) in
      let same : total ≡ hot_total a q.0 =
        ap (hot_total a) (sym (count_again mode o a b refl refl)) in
      ap
        (λ f.
          let c =
            if is_some f
            then (matching_count (lookup name a.filtered_indices), a)
            else total_line_count files now name a in
          (visible_lines files now name height (set_offset name c.0 c.1)).0)
        n
      ∙ ap (λ x. (visible_lines files now name height (set_offset name total x)).0)
          (call-disk_readers mode o a)
      ∙ nothing_left height (hot_total a q.0) (scroll_offset name q.1) (is_some a.filter) _ _ q.1
          (ap is_some n) (scrolled ∙ same)

  -- Without a filter, nothing is visible after the view was scrolled to the top, whatever the height
  -- of the window.
  pub scroll_to_top_lem :
      (height : ℕ) (a : App)
      → a.filter ≡ none
      → selected_name a ≡ some name
      → (visible_lines files now name height (scroll_to_top files now a)).0 ≡ []
  unfolding scroll_to_top selected_name
  scroll_to_top_lem height a no_filter e =
      let a' : App = record a { paused = true } in
      ap (λ o. (visible_lines files now name height (for_selected o (to_top files now) a')).0) e
      ∙ at_top height a' no_filter refl
