-- ===== src/Tui/App/OnDisk.antt =====
-- The lines of a stream mode on disk, as the reader of a process gives them.
use agent_procs.Tui.Disk.Merge.Order.{length-map}
use agent_procs.Prelude.{
  ℕ, zero, suc, ◌+◌, ◌≡◌, sym, ap, ◌∙◌, List, [], ◌∷◌, ◌++◌, some, Text, unwrap_or, length, take,
  drop, arith, take_all,
}
use agent_procs.Prelude.Maps.{lookup, adjust}
use agent_procs.Logs.Files.{Files}
use agent_procs.Tui.Buffer.{LineSource, stdout, stderr, StreamMode, both}
use agent_procs.Tui.Disk.Segment.Laws.{Stored}
use agent_procs.Tui.Disk.Spans.{lines_of}
use agent_procs.Tui.Disk.Discover.{DiskLogReader}
use agent_procs.Tui.Disk.Fresh.{settled}
use agent_procs.Tui.Disk.Scan.Laws.{Shelved, read_lines-settled}
use agent_procs.Tui.Disk.Merge.View.{
  view, Shelved-settled, settled_again, map-take, map-drop, read_interleaved-StoredIn,
}
use agent_procs.Tui.App.{App}
use agent_procs.Tui.App.Lines.{Line, with_reader, call, disk_count, disk_range, tagged, with_source}
use agent_procs.Tui.App.Rescan.{lines_in, disk_count-lines_in}

-- The lines on disk that a stream mode shows, with their sources.
abbrev pub disk_lines : Files → List Stored → List Stored → StreamMode → List Line
disk_lines files ps qs StreamMode.stdout = with_source stdout (lines_of ps)
disk_lines files ps qs StreamMode.stderr = with_source stderr (lines_of qs)
disk_lines files ps qs both = view files ps qs

pub take-plus {ℓ} :
    {A : Type ℓ} (m n : ℕ) (xs : List A) → take m xs ++ take n (drop m xs) ≡ take (m + n) xs
take-plus zero n xs = ap (λ k. take k xs) (omega arith)
take-plus (suc m) n [] = take_all n [] (omega arith) ∙ sym (take_all (suc m + n) [] (omega arith))
take-plus (suc m) n (x ∷ xs) =
    let total : suc (m + n) ≡ suc m + n = omega arith in
    ap (◌∷◌ x) (take-plus m n xs) ∙ ap (λ k. take k (x ∷ xs)) total

abbrev tag : LineSource → Text → Line
tag source l = (source, l)

module _ (files : Files) (now : ℕ) (r : DiskLogReader) (ps qs : List Stored)
    (hp : Shelved files now stdout r ps) (hq : Shelved files now stderr r qs) where
  abbrev settle : DiskLogReader
  settle = settled files now r

  tagged-window :
      (source : LineSource) (ls : List Text) (start count : ℕ)
      → with_source source (take count (drop start ls))
        ≡ take count (drop start (with_source source ls))
  tagged-window source ls start count =
      map-take (tag source) count (drop start ls) ∙ ap (take count) (map-drop (tag source) start ls)

  pub disk_range-settled :
      (mode : StreamMode) (start count : ℕ)
      → disk_range files now mode start count settle
        ≡ (take count (drop start (disk_lines files ps qs mode)), settle)
  disk_range-settled StreamMode.stdout start count =
      ap (λ p. (tagged stdout p.0, p.1)) (read_lines-settled files now stdout r ps hp start count)
      ∙ ap (λ l. (l, settle)) (tagged-window stdout (lines_of ps) start count)
  disk_range-settled StreamMode.stderr start count =
      ap (λ p. (tagged stderr p.0, p.1)) (read_lines-settled files now stderr r qs hq start count)
      ∙ ap (λ l. (l, settle)) (tagged-window stderr (lines_of qs) start count)
  disk_range-settled both start count =
      ap (λ p. (unwrap_or p.0 [], p.1))
        (read_interleaved-StoredIn files now settle ps qs
          (Shelved-settled files now r ps qs hp hq stdout ps hp)
          (Shelved-settled files now r ps qs hp hq stderr qs hq) start count)
      ∙ ap (λ q. (take count (drop start (view files ps qs)), q))
          (settled_again files now r ps qs hp hq)

  length-disk_lines :
      (mode : StreamMode)
      → length (lines_in files ps qs mode) ≡ length (disk_lines files ps qs mode)
  length-disk_lines StreamMode.stdout = sym (length-map (tag stdout) (lines_of ps))
  length-disk_lines StreamMode.stderr = sym (length-map (tag stderr) (lines_of qs))
  length-disk_lines both = length-map (λ l. l.1) (view files ps qs)

  pub first_count :
      (mode : StreamMode)
      → disk_count files now mode r ≡ (length (disk_lines files ps qs mode), settle)
  first_count mode =
      disk_count-lines_in files now r ps qs hp hq mode
      ∙ ap (λ n. (n, settle)) (length-disk_lines mode)

  pub second_count :
      (mode : StreamMode)
      → disk_count files now mode settle ≡ (length (disk_lines files ps qs mode), settle)
  second_count mode =
      disk_count-lines_in files now settle ps qs
        (Shelved-settled files now r ps qs hp hq stdout ps hp)
        (Shelved-settled files now r ps qs hp hq stderr qs hq) mode
      ∙ ap (λ q. (length (lines_in files ps qs mode), q)) (settled_again files now r ps qs hp hq)
      ∙ ap (λ n. (n, settle)) (length-disk_lines mode)

abbrev pub put_reader : Text → DiskLogReader → App → App
put_reader name r a = record a { disk_readers = adjust name (λ old. r) a.disk_readers }

pub with_reader-some :
    {B : Type 0} (name : Text) (d v : B) (f : DiskLogReader → B × DiskLogReader)
    (r r' : DiskLogReader) (a : App)
    → lookup name a.disk_readers ≡ some r
    → f r ≡ (v, r')
    → with_reader name d f a ≡ (v, put_reader name r' a)
unfolding with_reader
with_reader-some name d v f r r' a e h =
    ap (λ o. call name d f o a) e ∙ ap (λ p. (p.0, put_reader name p.1 a)) h
