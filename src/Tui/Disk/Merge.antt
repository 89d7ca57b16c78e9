-- ===== src/Tui/Disk/Merge.antt =====
-- Both streams in the order of their sequence numbers: `build_merged_index`, `read_interleaved`.
pub mod Fill
pub mod Sorted
pub mod Order
pub mod Laws
pub mod View
use agent_procs.Prelude.{
  ℕ, zero, suc, ◌+◌, ◌-◌, ◌^◌, Bool, true, false, List, [], ◌∷◌, ◌++◌, map, Option, none, some,
  Text, leb, if◌then◌else◌, length, take, drop, min, select, enumerate,
}
use agent_procs.Prelude.Sort.{sort_ord}
use agent_procs.Logs.Files.{Files}
use agent_procs.Logs.Index.{IndexRecord, IndexReader, read_range}
use agent_procs.Tui.Buffer.{LineSource, stdout, stderr, is_stdout, is_stderr}
use agent_procs.Tui.Disk.Segment.{Segment, open_at}
use agent_procs.Tui.Disk.Discover.{DiskLogReader, segments}
use agent_procs.Tui.Disk.Spans.{read_single_line_from}

-- A line of a stream, with its sequence number.
pub record MergeEntry : Type 0 where
  pub seq : ℕ
  pub source : LineSource
  pub line : ℕ

abbrev pub u64_max : ℕ
u64_max = 2 ^ 64 - 1

abbrev pub recorded : LineSource → ℕ → List IndexRecord → List MergeEntry
recorded source line [] = []
recorded source line (r ∷ rs) =
    record { seq = r.seq; source = source; line = line } ∷ recorded source (suc line) rs

abbrev pub unrecorded : LineSource → ℕ → ℕ → List MergeEntry
unrecorded source line zero = []
unrecorded source line (suc n) =
    record { seq = u64_max; source = source; line = line } ∷ unrecorded source (suc line) n

abbrev pub entries_by : LineSource → ℕ → ℕ → Option IndexReader → List MergeEntry
entries_by source offset n (some reader) = recorded source offset (read_range reader 0 n)
entries_by source offset n none = unrecorded source offset n

unfoldable pub stream_entries : Files → LineSource → ℕ → List Segment → List MergeEntry
unfolding open_at
stream_entries files source line_offset [] = []
stream_entries files source line_offset (seg ∷ segs) =
    entries_by source line_offset seg.line_count (open_at files seg.idx_path)
    ++ stream_entries files source (line_offset + seg.line_count) segs

abbrev pub by_seq : MergeEntry → MergeEntry → Bool
by_seq a b = leb a.seq b.seq

-- All lines of both streams, sorted by their sequence numbers.
unfoldable pub merged_entries : Files → List Segment → List Segment → List MergeEntry
unfolding stream_entries
merged_entries files out err =
    sort_ord by_seq (stream_entries files stdout 0 out ++ stream_entries files stderr 0 err)

abbrev pub place : MergeEntry → LineSource × ℕ
place e = (e.source, e.line)

unfoldable pub merge : Files → List Segment → List Segment → List (LineSource × ℕ)
unfolding merged_entries
merge files out err = map place (merged_entries files out err)

unfoldable pub build_merged_index :
    Files → ℕ → DiskLogReader → List (LineSource × ℕ) × DiskLogReader
unfolding segments merge
build_merged_index files now r =
    let (out, r') = segments files now stdout r in
    let (err, r'') = segments files now stderr r' in (merge files out err, r'')

-- `result[i] = line`
abbrev pub set_at : ℕ → LineSource × Text → List (LineSource × Text) → List (LineSource × Text)
set_at i x [] = []
set_at zero x (y ∷ ys) = x ∷ ys
set_at (suc i) x (y ∷ ys) = y ∷ set_at i x ys

abbrev pub blank : ℕ → List (LineSource × Text)
blank zero = []
blank (suc n) = (stdout, []) ∷ blank n

abbrev pub store :
    LineSource → ℕ → Option Text → List (LineSource × Text) → Option (List (LineSource × Text))
store source i none result = none
store source i (some line) result = some (set_at i (source, line) result)

abbrev pub and_then {ℓ} : {A B : Type ℓ} → Option A → (A → Option B) → Option B
and_then none f = none
and_then (some a) f = f a

-- One loop over the lines of a stream that the window needs: (place in the result, line).
unfoldable pub fill :
    Files
    → List Segment
    → LineSource
    → List (ℕ × (LineSource × ℕ))
    → List (LineSource × Text)
    → Option (List (LineSource × Text))
unfolding read_single_line_from
fill files ss source [] result = some result
fill files ss source ((i, (s, line)) ∷ needed) result =
    and_then (store source i (read_single_line_from files ss line) result)
      (fill files ss source needed)

abbrev pub needed_of : (LineSource → Bool) → List (LineSource × ℕ) → List (ℕ × (LineSource × ℕ))
needed_of p window = select (λ e. p e.1.0) (enumerate 0 window)

unfoldable pub read_window :
    Files → List Segment → List Segment → List (LineSource × ℕ) → Option (List (LineSource × Text))
unfolding fill
read_window files out err window =
    and_then (fill files out stdout (needed_of is_stdout window) (blank (length window)))
      (fill files err stderr (needed_of is_stderr window))

unfoldable pub read_interleaved :
    Files → ℕ → ℕ → ℕ → DiskLogReader → Option (List (LineSource × Text)) × DiskLogReader
unfolding build_merged_index segments read_window
read_interleaved files now start count r =
    let (merged, r') = build_merged_index files now r in
    let (out, r'') = segments files now stdout r' in
    let (err, r''') = segments files now stderr r'' in
    let end = min (start + count) (length merged) in
    if leb end start
    then (some [], r')
    else (read_window files out err (take (end - start) (drop start merged)), r''')
