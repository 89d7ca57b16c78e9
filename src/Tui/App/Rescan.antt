-- ===== src/Tui/App/Rescan.antt =====
-- The incremental update of a filtered index is a full rescan.
use agent_procs.Prelude.{
  ℕ, ◌+◌, ◌≤◌, ◌≡◌, sym, ap, ◌∙◌, List, ◌++◌, map, some, Text, leb, if◌then◌else◌, length,
  length-take, take, drop, take_all, arith, Bool-cases, inl, inr,
}
use agent_procs.Prelude.Maps.{lookup, adjust, lookup-adjust}
use agent_procs.Logs.Files.{Files}
use agent_procs.Tui.Buffer.{stdout, stderr, StreamMode, both}
use agent_procs.Tui.Disk.Segment.Laws.{Stored}
use agent_procs.Tui.Disk.Spans.{lines_of}
use agent_procs.Tui.Disk.Discover.{DiskLogReader}
use agent_procs.Tui.Disk.Fresh.{settled}
use agent_procs.Tui.Disk.Scan.{matches, scan_matching_lines_from}
use agent_procs.Tui.Disk.Scan.Laws.{
  Shelved, matches-append, take-drop, line_count-settled, scan_single_stream-StoredIn,
}
use agent_procs.Tui.Disk.Merge.View.{
  view, Shelved-settled, line_count_both-settled, scan_interleaved-StoredIn, length-shown,
}
use agent_procs.Tui.App.{App, FilteredIndex}
use agent_procs.Tui.App.Lines.{disk_count}
use agent_procs.Tui.App.Filter.{update_filtered_index, update_with, extend_index, update_index}

-- The lines that a stream mode shows.
abbrev pub lines_in : Files → List Stored → List Stored → StreamMode → List Text
lines_in files ps qs StreamMode.stdout = lines_of ps
lines_in files ps qs StreamMode.stderr = lines_of qs
lines_in files ps qs both = map (λ l. l.1) (view files ps qs)

module _ (files : Files) (now : ℕ) (r : DiskLogReader) (ps qs : List Stored)
    (hp : Shelved files now stdout r ps) (hq : Shelved files now stderr r qs) where
  pub disk_count-lines_in :
      (mode : StreamMode)
      → disk_count files now mode r ≡ (length (lines_in files ps qs mode), settled files now r)
  disk_count-lines_in StreamMode.stdout = line_count-settled files now stdout r ps hp
  disk_count-lines_in StreamMode.stderr = line_count-settled files now stderr r qs hq
  disk_count-lines_in both =
      line_count_both-settled files now r ps qs hp hq
      ∙ ap (λ n. (n, settled files now r)) (sym (length-shown files ps qs))

  scan-lines_in :
      (filter : Text) (mode : StreamMode) (start : ℕ)
      → (scan_matching_lines_from files now filter mode start (settled files now r)).0
        ≡ matches filter start (drop start (lines_in files ps qs mode))
  unfolding scan_matching_lines_from
  scan-lines_in filter StreamMode.stdout start =
      scan_single_stream-StoredIn files now stdout (settled files now r) ps
        (Shelved-settled files now r ps qs hp hq stdout ps hp) filter start
  scan-lines_in filter StreamMode.stderr start =
      scan_single_stream-StoredIn files now stderr (settled files now r) qs
        (Shelved-settled files now r ps qs hp hq stderr qs hq) filter start
  scan-lines_in filter both start =
      scan_interleaved-StoredIn files now (settled files now r) ps qs
        (Shelved-settled files now r ps qs hp hq stdout ps hp)
        (Shelved-settled files now r ps qs hp hq stderr qs hq) filter start

matches-resume :
    (filter : Text) (n : ℕ) (ls : List Text)
    → n ≤ length ls
    → matches filter 0 (take n ls) ++ matches filter n (drop n ls) ≡ matches filter 0 ls
matches-resume filter n ls h =
    let front : 0 + length (take n ls) ≡ n = omega (arith, h, length-take n ls) in
    ap (λ k. matches filter 0 (take n ls) ++ matches filter k (drop n ls)) (sym front)
    ∙ sym (matches-append filter 0 (take n ls) (drop n ls))
    ∙ ap (matches filter 0) (take-drop n ls)

-- The index that one scan of all lines gives.
abbrev pub rescanned : FilteredIndex → List Text → FilteredIndex
rescanned fi ls = record fi { matching_lines = matches fi.filter 0 ls; scanned_up_to = length ls }

module _ (files : Files) (now : ℕ) (process : Text) (a : App) (r : DiskLogReader)
    (fi : FilteredIndex) (ps qs : List Stored) where
  abbrev ls : List Text
  ls = lines_in files ps qs fi.stream_mode

  -- What the update does, once the reader has counted its lines.
  counted : ℕ × DiskLogReader → App
  counted p =
      let found =
        scan_matching_lines_from files now fi.filter fi.stream_mode fi.scanned_up_to p.1 in
      let a' = record a { disk_readers = adjust process (λ old. p.1) a.disk_readers } in
      let a'' = record a {
        disk_readers = adjust process (λ old. found.1) a.disk_readers;
        filtered_indices = adjust process (extend_index found.0 p.0) a.filtered_indices;
      } in
      if leb p.0 fi.scanned_up_to then a' else a''

  counted-rescanned :
      lookup process a.filtered_indices ≡ some fi
      → Shelved files now stdout r ps
      → Shelved files now stderr r qs
      → fi.scanned_up_to ≤ length ls
      → fi.matching_lines ≡ matches fi.filter 0 (take fi.scanned_up_to ls)
      → lookup process (counted (length ls, settled files now r)).filtered_indices
        ≡ some (rescanned fi ls)
  unfolding counted
  counted-rescanned ei hp hq h m = elim (Bool-cases (leb (length ls) fi.scanned_up_to)) [
    | inl old ↦
        let all : length ls ≡ fi.scanned_up_to = ground (arith, old, h) in
        let same : fi.matching_lines ≡ matches fi.filter 0 ls =
          m ∙ ap (matches fi.filter 0) (take_all fi.scanned_up_to ls (omega (arith, all))) in
        rw old (
          ei
          ∙ ap (λ x. some (record fi { matching_lines = x })) same
          ∙ ap
              (λ n. some (record fi { matching_lines = matches fi.filter 0 ls; scanned_up_to = n }))
              (sym all))
    | inr new ↦ rw new (
        lookup-adjust process _ fi a.filtered_indices ei
        ∙ ap (λ x. some (record fi { matching_lines = x; scanned_up_to = length ls }))
            (ap (λ x. fi.matching_lines ++ x)
                (scan-lines_in files now r ps qs hp hq fi.filter fi.stream_mode fi.scanned_up_to)
              ∙ ap (λ x. x ++ matches fi.filter fi.scanned_up_to (drop fi.scanned_up_to ls)) m
              ∙ matches-resume fi.filter fi.scanned_up_to ls h))
  ]

  -- When a process has new lines on disk, the incremental update of its filtered index gives what a
  -- scan of all its lines gives, if the index was right for the lines that were scanned before.
  pub update_filtered_index-rescanned :
      lookup process a.disk_readers ≡ some r
      → lookup process a.filtered_indices ≡ some fi
      → Shelved files now stdout r ps
      → Shelved files now stderr r qs
      → fi.scanned_up_to ≤ length (lines_in files ps qs fi.stream_mode)
      → fi.matching_lines
        ≡ matches fi.filter 0 (take fi.scanned_up_to (lines_in files ps qs fi.stream_mode))
      → lookup process (update_filtered_index files now process a).filtered_indices
        ≡ some (rescanned fi (lines_in files ps qs fi.stream_mode))
  unfolding update_filtered_index counted
  update_filtered_index-rescanned er ei hp hq h m =
      let by_index : update_filtered_index files now process a
          ≡ update_with files now process fi (lookup process a.disk_readers) a =
        ap (λ o. update_index files now process o a) ei in
      let by_reader : update_with files now process fi (lookup process a.disk_readers) a
          ≡ counted (disk_count files now fi.stream_mode r) =
        ap (λ o. update_with files now process fi o a) er in
      ap (λ b. lookup process b.filtered_indices) by_index
      ∙ ap (λ b. lookup process b.filtered_indices) by_reader
      ∙ ap (λ p. lookup process (counted p).filtered_indices)
          (disk_count-lines_in files now r ps qs hp hq fi.stream_mode)
      ∙ counted-rescanned ei hp hq h m
