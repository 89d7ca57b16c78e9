-- ===== src/Tui/Disk/Scan.antt =====
-- Filtered scrollback: the scans for matching lines, and `read_scattered_lines`.
pub mod Laws
use agent_procs.Prelude.{
  ℕ, zero, suc, ◌+◌, ◌-◌, Bool, true, false, List, [], ◌∷◌, ◌++◌, map, Option, none, some, Text,
  contains, leb, ltb, if◌then◌else◌, min,
}
use agent_procs.Logs.Files.{Files}
use agent_procs.Tui.Buffer.{LineSource, stdout, stderr, StreamMode, both}
use agent_procs.Tui.Disk.Discover.{DiskLogReader, segments, line_count, line_count_both}
use agent_procs.Tui.Disk.Spans.{read_lines_from_segments}
use agent_procs.Tui.Disk.Merge.{read_interleaved}

unfoldable pub read_lines :
    Files → ℕ → LineSource → ℕ → ℕ → DiskLogReader → Option (List Text) × DiskLogReader
unfolding segments read_lines_from_segments
read_lines files now source start count r =
    let (ss, r') = segments files now source r in
    (read_lines_from_segments files ss start count, r')

-- The numbers of the matching lines, counted from `offset`.
unfoldable pub matches : Text → ℕ → List Text → List ℕ
matches filter offset [] = []
matches filter offset (l ∷ ls) =
    let rest = matches filter (suc offset) ls in if contains l filter then offset ∷ rest else rest

abbrev pub matches_of : Text → ℕ → Option (List Text) → List ℕ
matches_of filter offset none = []
matches_of filter offset (some ls) = matches filter offset ls

abbrev pub chunk : ℕ
chunk = 1000

-- `while offset < total`, with the read of one chunk; `total` rounds are enough.
unfoldable pub scan_chunks :
    (ℕ → ℕ → DiskLogReader → Option (List Text) × DiskLogReader)
    → Text
    → ℕ
    → ℕ
    → ℕ
    → DiskLogReader
    → List ℕ × DiskLogReader
unfolding matches
scan_chunks read filter total zero offset r = ([], r)
scan_chunks read filter total (suc fuel) offset r =
    let count = min chunk (total - offset) in
    let (lines, r') = read offset count r in
    let (rest, r'') = scan_chunks read filter total fuel (offset + count) r' in
    if ltb offset total then (matches_of filter offset lines ++ rest, r'') else ([], r)

unfoldable pub scan_single_stream :
    Files → ℕ → Text → LineSource → ℕ → DiskLogReader → List ℕ × DiskLogReader
unfolding line_count scan_chunks read_lines
scan_single_stream files now filter source start_from r =
    let (total, r') = line_count files now source r in
    if leb total start_from
    then ([], r')
    else scan_chunks (read_lines files now source) filter total total start_from r'

abbrev pub texts : Option (List (LineSource × Text)) → Option (List Text)
texts none = none
texts (some ls) = some (map (λ l. l.1) ls)

abbrev pub read_texts : Files → ℕ → ℕ → ℕ → DiskLogReader → Option (List Text) × DiskLogReader
read_texts files now offset count r =
    let (lines, r') = read_interleaved files now offset count r in (texts lines, r')

unfoldable pub scan_interleaved : Files → ℕ → Text → ℕ → DiskLogReader → List ℕ × DiskLogReader
unfolding line_count_both scan_chunks read_interleaved
scan_interleaved files now filter start_from r =
    let (total, r') = line_count_both files now r in
    if leb total start_from
    then ([], r')
    else scan_chunks (read_texts files now) filter total total start_from r'

unfoldable pub scan_matching_lines_from :
    Files → ℕ → Text → StreamMode → ℕ → DiskLogReader → List ℕ × DiskLogReader
unfolding scan_single_stream scan_interleaved
scan_matching_lines_from files now filter StreamMode.stdout start_from r =
    scan_single_stream files now filter stdout start_from r
scan_matching_lines_from files now filter StreamMode.stderr start_from r =
    scan_single_stream files now filter stderr start_from r
scan_matching_lines_from files now filter both start_from r =
    scan_interleaved files now filter start_from r

unfoldable pub scan_matching_lines :
    Files → ℕ → Text → StreamMode → DiskLogReader → List ℕ × DiskLogReader
unfolding scan_matching_lines_from
scan_matching_lines files now filter mode r = scan_matching_lines_from files now filter mode 0 r

abbrev first_of : LineSource → Option (List Text) → LineSource × Text
first_of source (some (l ∷ ls)) = (source, l)
first_of source _ = (source, [])

abbrev first_entry : Option (List (LineSource × Text)) → LineSource × Text
first_entry (some (e ∷ es)) = e
first_entry _ = (stdout, [])

unfoldable pub scattered_stream :
    Files → ℕ → LineSource → List ℕ → DiskLogReader → List (LineSource × Text) × DiskLogReader
unfolding read_lines
scattered_stream files now source [] r = ([], r)
scattered_stream files now source (n ∷ ns) r =
    let (lines, r') = read_lines files now source n 1 r in
    let (rest, r'') = scattered_stream files now source ns r' in (first_of source lines ∷ rest, r'')

unfoldable pub scattered_both :
    Files → ℕ → List ℕ → DiskLogReader → List (LineSource × Text) × DiskLogReader
unfolding read_interleaved
scattered_both files now [] r = ([], r)
scattered_both files now (n ∷ ns) r =
    let (lines, r') = read_interleaved files now n 1 r in
    let (rest, r'') = scattered_both files now ns r' in (first_entry lines ∷ rest, r'')

unfoldable pub read_scattered_lines :
    Files → ℕ → StreamMode → List ℕ → DiskLogReader → List (LineSource × Text) × DiskLogReader
unfolding scattered_stream scattered_both
read_scattered_lines files now StreamMode.stdout ns r = scattered_stream files now stdout ns r
read_scattered_lines files now StreamMode.stderr ns r = scattered_stream files now stderr ns r
read_scattered_lines files now both ns r = scattered_both files now ns r
