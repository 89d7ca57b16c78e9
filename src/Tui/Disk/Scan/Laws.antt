-- ===== src/Tui/Disk/Scan/Laws.antt =====
-- The scan in chunks is one pass over all the lines.
use agent_procs.Prelude.{
  ℕ, zero, suc, ◌+◌, ◌-◌, ◌≤◌, ◌≡◌, refl, sym, ap, ◌∙◌, List, [], ◌∷◌, ◌++◌, Option, some, Text,
  contains, leb, ltb, if◌then◌else◌, length, take, drop, drop_all, drop-drop, length-take,
  length-drop, length-append, min, All, arith, Bool-cases, inl, inr,
}
use agent_procs.Logs.Files.{Files}
use agent_procs.Tui.Buffer.{LineSource}
use agent_procs.Tui.Disk.Segment.Laws.{Stored, StoredIn}
use agent_procs.Tui.Disk.Spans.{
  read_lines_from_segments, read_lines_from_segments-StoredIn, lines_of, segments_of,
}
use agent_procs.Tui.Disk.Discover.{DiskLogReader, segments, line_count, count_of, of_source}
use agent_procs.Tui.Disk.Fresh.{current, settled, segments-settled}
use agent_procs.Tui.Disk.Scan.{read_lines, matches, chunk, scan_chunks, scan_single_stream}

pub matches-append :
    (filter : Text) (offset : ℕ) (xs ys : List Text)
    → matches filter offset (xs ++ ys)
      ≡ matches filter offset xs ++ matches filter (offset + length xs) ys
unfolding matches
matches-append filter offset [] ys = ap (λ n. matches filter n ys) (omega arith)
matches-append filter offset (x ∷ xs) ys = elim (Bool-cases (contains x filter)) [
  | inl hit ↦ rw hit (
      ap (◌∷◌ offset) (
        matches-append filter (suc offset) xs ys
        ∙ ap (λ n. matches filter (suc offset) xs ++ matches filter n ys) (omega arith)))
  | inr miss ↦ rw miss (
      matches-append filter (suc offset) xs ys
      ∙ ap (λ n. matches filter (suc offset) xs ++ matches filter n ys) (omega arith))
]

pub take-drop {ℓ} : {A : Type ℓ} (n : ℕ) (xs : List A) → take n xs ++ drop n xs ≡ xs
take-drop zero xs = refl
take-drop (suc n) [] = refl
take-drop (suc n) (x ∷ xs) = ap (◌∷◌ x) (take-drop n xs)

-- The matches in one chunk, and then those after it.
matches-chunk :
    (filter : Text) (ls : List Text) (offset count : ℕ)
    → offset + count ≤ length ls
    → matches filter offset (drop offset ls)
      ≡ matches filter offset (take count (drop offset ls))
        ++ matches filter (offset + count) (drop (offset + count) ls)
matches-chunk filter ls offset count h =
    let rest = drop offset ls in
    ap (matches filter offset) (sym (take-drop count rest))
    ∙ matches-append filter offset (take count rest) (drop count rest)
    ∙ ap (λ n. matches filter offset (take count rest) ++ matches filter n (drop count rest))
        (omega (arith, h, length-take count rest, length-drop offset ls))
    ∙ ap (λ l. matches filter offset (take count rest) ++ matches filter (offset + count) l)
        (drop-drop count offset ls)

-- The reads of one operation: windows of these lines, which leave the reader as it is.
abbrev pub ReadsAs :
    (ℕ → ℕ → DiskLogReader → Option (List Text) × DiskLogReader)
    → List Text
    → DiskLogReader
    → Type 0
ReadsAs read ls r =
    (offset count : ℕ) → read offset count r ≡ (some (take count (drop offset ls)), r)

-- Reading in chunks finds what one pass over the lines finds.
pub scan_chunks-matches :
    (read : ℕ → ℕ → DiskLogReader → Option (List Text) × DiskLogReader) (filter : Text)
    (ls : List Text) (fuel offset : ℕ) (r : DiskLogReader)
    → ReadsAs read ls r
    → length ls ≤ offset + fuel
    → scan_chunks read filter (length ls) fuel offset r
      ≡ (matches filter offset (drop offset ls), r)
unfolding scan_chunks matches
scan_chunks-matches read filter ls zero offset r reads h =
    ap (λ l. (matches filter offset l, r)) (sym (drop_all offset ls (omega (arith, h))))
scan_chunks-matches read filter ls (suc fuel) offset r reads h =
    let count = min chunk (length ls - offset) in
    elim (Bool-cases (ltb offset (length ls))) [
      | inl more ↦
          let later =
            scan_chunks-matches read filter ls fuel (offset + count) r reads
              (ground (arith, h, more)) in
          let whole = matches-chunk filter ls offset count (ground (arith, more)) in
          rw (more, reads offset count, later) (ap (λ m. (m, r)) (sym whole))
      | inr done ↦
          rw done (
            ap (λ l. (matches filter offset l, r))
              (sym (drop_all offset ls (ground (arith, done)))))
    ]

pub count_of-StoredIn :
    (files : Files) (ps : List Stored)
    → All (StoredIn files) ps
    → count_of (segments_of ps) ≡ length (lines_of ps)
count_of-StoredIn files [] h = refl
count_of-StoredIn files (p ∷ ps) h =
    omega (arith, h.0.0, count_of-StoredIn files ps h.1, length-append p.ls (lines_of ps))

-- The segments that an operation at this time reads are stored: `ps` has their lines.
pub record Shelved (files : Files) (now : ℕ) (source : LineSource) (r : DiskLogReader)
    (ps : List Stored) : Type 0 where
  pub found : of_source source (current files now r) ≡ segments_of ps
  pub stored : All (StoredIn files) ps

module _ (files : Files) (now : ℕ) (source : LineSource) (r : DiskLogReader) (ps : List Stored)
    (h : Shelved files now source r ps) where
  pub read_lines-settled : ReadsAs (read_lines files now source) (lines_of ps) (settled files now r)
  unfolding read_lines
  read_lines-settled offset count =
      ap (λ p. (read_lines_from_segments files p.0 offset count, p.1))
        (segments-settled files now source r)
      ∙ ap (λ ss. (read_lines_from_segments files ss offset count, settled files now r)) h.found
      ∙ ap (λ l. (l, settled files now r))
          (read_lines_from_segments-StoredIn files ps offset count h.stored)

  pub line_count-settled :
      line_count files now source r ≡ (length (lines_of ps), settled files now r)
  unfolding line_count segments
  line_count-settled =
      ap (λ ss. (count_of ss, settled files now r)) h.found
      ∙ ap (λ n. (n, settled files now r)) (count_of-StoredIn files ps h.stored)

  -- The line count of a stream is the number of lines that its segments store.
  pub line_count-StoredIn : (line_count files now source r).0 ≡ length (lines_of ps)
  line_count-StoredIn = ap (λ p. p.0) line_count-settled

  scan_total : Text → ℕ → ℕ × DiskLogReader → List ℕ × DiskLogReader
  scan_total filter start p =
      if leb p.0 start
      then ([], p.1)
      else scan_chunks (read_lines files now source) filter p.0 p.0 start p.1

  scan_total-settled :
      (filter : Text) (start : ℕ)
      → scan_total filter start (length (lines_of ps), settled files now r)
        ≡ (matches filter start (drop start (lines_of ps)), settled files now r)
  unfolding scan_total matches
  scan_total-settled filter start =
      let ls = lines_of ps in
      elim (Bool-cases (leb (length ls) start)) [
        | inl beyond ↦ rw beyond (
            ap (λ l. (matches filter start l, settled files now r))
              (sym (drop_all start ls (ground (arith, beyond)))))
        | inr inside ↦ rw inside (
            scan_chunks-matches (read_lines files now source) filter ls (length ls) start
              (settled files now r) read_lines-settled (omega arith))
      ]

  -- A scan of a stream for a filter, from a line on, finds the numbers of the lines that contain
  -- the filter: reading in chunks of 1000 lines, across rotated files, is one pass over all lines.
  pub scan_single_stream-StoredIn :
      (filter : Text) (start : ℕ)
      → (scan_single_stream files now filter source start r).0
        ≡ matches filter start (drop start (lines_of ps))
  unfolding scan_single_stream scan_total
  scan_single_stream-StoredIn filter start =
      ap (λ p. (scan_total filter start p).0) line_count-settled
      ∙ ap (λ p. p.0) (scan_total-settled filter start)
