-- ===== src/Tui/Disk/Merge/View.antt =====
-- `read_interleaved` and `scan_interleaved` by the merged view.
use agent_procs.Prelude.{
  ℕ, zero, suc, ◌+◌, ◌-◌, ◌≡◌, refl, sym, ap, ◌∙◌, List, [], ◌∷◌, map, Option, some, Text,
  if◌then◌else◌, leb, length, length-take, length-drop, take, drop, drop_all, take_same, empty, min,
  All, All-drop, arith, Bool-cases, inl, inr,
}
use agent_procs.Logs.Files.{Files}
use agent_procs.Tui.Buffer.{LineSource, stdout, stderr}
use agent_procs.Tui.Disk.Segment.{Segment}
use agent_procs.Tui.Disk.Segment.Laws.{Stored}
use agent_procs.Tui.Disk.Spans.{lines_of, segments_of}
use agent_procs.Tui.Disk.Discover.{DiskLogReader, segments, line_count_both, count_of, of_source}
use agent_procs.Tui.Disk.Fresh.{settled, segments-settled, current-settled}
use agent_procs.Tui.Disk.Scan.{matches, scan_chunks, scan_interleaved, read_texts, texts}
use agent_procs.Tui.Disk.Scan.Laws.{Shelved, ReadsAs, scan_chunks-matches, count_of-StoredIn}
use agent_procs.Tui.Disk.Merge.{
  merge, merged_entries, place, build_merged_index, read_interleaved, read_window,
}
use agent_procs.Tui.Disk.Merge.Fill.{fetch, read_window-fetch}
use agent_procs.Tui.Disk.Merge.Order.{length-map}
use agent_procs.Tui.Disk.Merge.Laws.{merge-Inside, length-merged_entries}

-- The lines of the merged view.
abbrev pub view : Files → List Stored → List Stored → List (LineSource × Text)
view files ps qs =
    map (fetch (lines_of ps) (lines_of qs)) (merge files (segments_of ps) (segments_of qs))

pub map-take {ℓ κ} :
    {A : Type ℓ} {B : Type κ} (f : A → B) (n : ℕ) (xs : List A)
    → map f (take n xs) ≡ take n (map f xs)
map-take f zero xs = refl
map-take f (suc n) [] = refl
map-take f (suc n) (x ∷ xs) = ap (◌∷◌ (f x)) (map-take f n xs)

pub map-drop {ℓ κ} :
    {A : Type ℓ} {B : Type κ} (f : A → B) (n : ℕ) (xs : List A)
    → map f (drop n xs) ≡ drop n (map f xs)
map-drop f zero xs = refl
map-drop f (suc n) [] = refl
map-drop f (suc n) (x ∷ xs) = map-drop f n xs

All-take {ℓ κ} : {A : Type ℓ} (P : A → Type κ) (n : ℕ) (xs : List A) → All P xs → All P (take n xs)
All-take P zero xs h = tt
All-take P (suc n) [] h = tt
All-take P (suc n) (x ∷ xs) h = (h.0, All-take P n xs h.1)

module _ (files : Files) (now : ℕ) (r : DiskLogReader) (ps qs : List Stored)
    (hp : Shelved files now stdout r ps) (hq : Shelved files now stderr r qs) where
  abbrev settle : DiskLogReader
  settle = settled files now r

  abbrev merged : List (LineSource × ℕ)
  merged = merge files (segments_of ps) (segments_of qs)

  segments_out :
      (q : DiskLogReader) → q ≡ settle → segments files now stdout q ≡ (segments_of ps, settle)
  segments_out q e =
      ap (segments files now stdout) e
      ∙ segments-settled files now stdout r
      ∙ ap (λ ss. (ss, settle)) hp.found

  segments_err :
      (q : DiskLogReader) → q ≡ settle → segments files now stderr q ≡ (segments_of qs, settle)
  segments_err q e =
      ap (segments files now stderr) e
      ∙ segments-settled files now stderr r
      ∙ ap (λ ss. (ss, settle)) hq.found

  segments_first : segments files now stdout r ≡ (segments_of ps, settle)
  unfolding segments
  segments_first = ap (λ ss. (ss, settle)) hp.found

  build-merge : build_merged_index files now r ≡ (merged, settle)
  unfolding build_merged_index
  build-merge =
      ap
        (λ p.
          (merge files p.0 (segments files now stderr p.1).0, (segments files now stderr p.1).1))
        segments_first
      ∙ ap (λ p. (merge files (segments_of ps) p.0, p.1)) (segments_err settle refl)

  windowed :
      ℕ
      → ℕ
      → List (LineSource × ℕ)
      → List Segment × DiskLogReader
      → List Segment × DiskLogReader
      → DiskLogReader
      → Option (List (LineSource × Text)) × DiskLogReader
  windowed start count index a b q =
      let end = min (start + count) (length index) in
      if leb end start
      then (some [], q)
      else (read_window files a.0 b.0 (take (end - start) (drop start index)), b.1)

  map-window :
      (start count : ℕ)
      → map
          (fetch (lines_of ps) (lines_of qs))
          (take (min (start + count) (length merged) - start) (drop start merged))
        ≡ take count (drop start (view files ps qs))
  map-window start count =
      let f = fetch (lines_of ps) (lines_of qs) in
      let k = min (start + count) (length merged) - start in
      map-take f k (drop start merged)
      ∙ ap (take k) (map-drop f start merged)
      ∙ take_same k count (drop start (view files ps qs))
          (omega (arith, length-drop start (view files ps qs), length-map f merged))

  -- A window of the interleaved view is that window of the merged lines.
  pub read_interleaved-StoredIn :
      (start count : ℕ)
      → read_interleaved files now start count r
        ≡ (some (take count (drop start (view files ps qs))), settle)
  unfolding read_interleaved windowed
  read_interleaved-StoredIn start count =
      ap
        (λ p.
          windowed start count p.0 (segments files now stdout p.1)
            (segments files now stderr (segments files now stdout p.1).1) p.1)
        build-merge
      ∙ ap (λ a. windowed start count merged a (segments files now stderr a.1) settle)
          (segments_out settle refl)
      ∙ ap (λ b. windowed start count merged (segments_of ps, settle) b settle)
          (segments_err settle refl)
      ∙ elim (Bool-cases (leb (min (start + count) (length merged)) start)) [
        | inl nothing ↦ rw nothing (
            ap (λ l. (some l, settle))
              (sym (
                empty (take count (drop start (view files ps qs))) (
                  ground (
                    arith,
                    nothing,
                    length-take count (drop start (view files ps qs)),
                    length-drop start (view files ps qs),
                    length-map (fetch (lines_of ps) (lines_of qs)) merged,
                  )))))
        | inr something ↦ rw something (
            ap (λ l. (l, settle))
              (read_window-fetch files ps qs hp.stored hq.stored _ (
                  All-take _ _ (drop start merged)
                    (All-drop _ start merged (merge-Inside files ps qs hp.stored hq.stored)))
                ∙ ap some (map-window start count)))
      ]

  pub Shelved-settled :
      (source : LineSource) (xs : List Stored)
      → Shelved files now source r xs
      → Shelved files now source settle xs
  Shelved-settled source xs h = record {
    found = ap (of_source source) (current-settled files now r) ∙ h.found;
    stored = h.stored;
  }

  pub settled_again : settled files now settle ≡ settle
  settled_again = ap (λ c. record r { cache = some c }) (current-settled files now r)

  length-view : length (view files ps qs) ≡ length (lines_of ps) + length (lines_of qs)
  unfolding merge
  length-view =
      length-map (fetch (lines_of ps) (lines_of qs)) merged
      ∙ length-map place (merged_entries files (segments_of ps) (segments_of qs))
      ∙ length-merged_entries files ps qs hp.stored hq.stored

  pub line_count_both-settled : line_count_both files now r ≡ (length (view files ps qs), settle)
  unfolding line_count_both
  line_count_both-settled =
      ap
        (λ p. (
          count_of p.0 + count_of (segments files now stderr p.1).0,
          (segments files now stderr p.1).1,
        ))
        segments_first
      ∙ ap (λ p. (count_of (segments_of ps) + count_of p.0, p.1)) (segments_err settle refl)
      ∙ ap (λ n. (n, settle)) sizes
    where
      sizes : count_of (segments_of ps) + count_of (segments_of qs) ≡ length (view files ps qs)
      sizes = omega (
        arith,
        length-view,
        count_of-StoredIn files ps hp.stored,
        count_of-StoredIn files qs hq.stored,
      )

  abbrev shown : List Text
  shown = map (λ l. l.1) (view files ps qs)

scan_total : Files → ℕ → Text → ℕ → ℕ × DiskLogReader → List ℕ × DiskLogReader
scan_total files now filter start p =
    if leb p.0 start then ([], p.1) else scan_chunks (read_texts files now) filter p.0 p.0 start p.1

module _ (files : Files) (now : ℕ) (r : DiskLogReader) (ps qs : List Stored)
    (hp : Shelved files now stdout r ps) (hq : Shelved files now stderr r qs) where
  read_texts-settled :
      ReadsAs (read_texts files now) (shown files now r ps qs hp hq) (settled files now r)
  read_texts-settled offset count =
      ap (λ p. (texts p.0, p.1))
        (read_interleaved-StoredIn files now (settled files now r) ps qs
          (Shelved-settled files now r ps qs hp hq stdout ps hp)
          (Shelved-settled files now r ps qs hp hq stderr qs hq) offset count)
      ∙ ap (λ q. (some (map (λ l. l.1) (take count (drop offset (view files ps qs)))), q))
          (settled_again files now r ps qs hp hq)
      ∙ ap (λ l. (some l, settled files now r))
          (map-take (λ l. l.1) count (drop offset (view files ps qs))
            ∙ ap (take count) (map-drop (λ l. l.1) offset (view files ps qs)))

  -- A scan of the interleaved view for a filter finds the numbers of its lines that contain the
  -- filter, as one pass over the whole view would.
  pub scan_interleaved-StoredIn :
      (filter : Text) (start : ℕ)
      → (scan_interleaved files now filter start r).0
        ≡ matches filter start (drop start (map (λ l. l.1) (view files ps qs)))
  unfolding scan_interleaved scan_total matches
  scan_interleaved-StoredIn filter start =
      let n = length (view files ps qs) in
      let ls = shown files now r ps qs hp hq in
      ap (λ p. (scan_total files now filter start p).0)
        (line_count_both-settled files now r ps qs hp hq)
      ∙ elim (Bool-cases (leb n start)) [
        | inl beyond ↦ rw beyond (
            ap (matches filter start) (
              sym (
                drop_all start ls
                  (ground (arith, beyond, length-map (λ l. l.1) (view files ps qs))))))
        | inr inside ↦ rw inside (
            ap (λ m. (scan_chunks (read_texts files now) filter m m start (settled files now r)).0)
              (sym (length-map (λ l. l.1) (view files ps qs)))
            ∙ ap (λ p. p.0)
                (scan_chunks-matches (read_texts files now) filter ls (length ls) start
                  (settled files now r) read_texts-settled (omega arith)))
      ]

pub length-shown :
    (files : Files) (ps qs : List Stored)
    → length (map (λ l. l.1) (view files ps qs)) ≡ length (view files ps qs)
length-shown files ps qs = length-map (λ l. l.1) (view files ps qs)
