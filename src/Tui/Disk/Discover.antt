-- ===== src/Tui/Disk/Discover.antt =====
-- The log segments of a process: `discover_segments`, and their cache.
pub mod Fuel
use agent_procs.Prelude.{
  ℕ, zero, suc, ◌+◌, ◌-◌, Bool, List, [], ◌∷◌, ◌++◌, map, Option, none, some, Text, bytes, leb, ltb,
  if◌then◌else◌, length, sum, unwrap_or,
}
use agent_procs.Prelude.Maps.{lookup, has_key}
use agent_procs.Prelude.Sort.{sort_ord}
use agent_procs.Logs.Files.{Files, idx_path_for, rotated_path}
use agent_procs.Logs.Index.{line_count_from_metadata}
use agent_procs.Logs.Lines.{buf_lines}
use agent_procs.Tui.Buffer.{LineSource, stdout, stderr}
use agent_procs.Tui.Disk.Segment.{Segment}

abbrev metadata_count : Option (List ℕ) → Option ℕ
metadata_count none = none
metadata_count (some contents) = some (line_count_from_metadata (length contents))

-- `idx_line_count`
unfoldable pub idx_line_count : Files → Text → Option ℕ
idx_line_count files idx_path = metadata_count (lookup idx_path files)

abbrev contents_count : Option (List ℕ) → Option ℕ
contents_count none = none
contents_count (some contents) = some (length (buf_lines contents))

unfoldable pub count_lines_in_file : Files → Text → Option ℕ
count_lines_in_file files path = contents_count (lookup path files)

unfoldable pub segment_at : Files → Text → Segment
unfolding idx_line_count count_lines_in_file
segment_at files log_path = record {
  log_path = log_path;
  idx_path = idx_path_for log_path;
  line_count =
      unwrap_or (idx_line_count files (idx_path_for log_path))
        (unwrap_or (count_lines_in_file files log_path) 0);
}

abbrev pub stream_name : LineSource → Text
stream_name stdout = bytes "stdout"
stream_name stderr = bytes "stderr"

-- `for n in 1u32..`, up to the first number that has no file.
unfoldable pub rotated_from : Files → Text → ℕ → ℕ → List (ℕ × Segment)
unfolding segment_at
rotated_from files base zero n = []
rotated_from files base (suc fuel) n =
    let rest = rotated_from files base fuel (suc n) in
    if has_key (rotated_path base n) files
    then (n, segment_at files (rotated_path base n)) ∷ rest
    else []

-- `sort_by_key(|(n, _)| Reverse(*n))`
abbrev pub newer_later : ℕ × Segment → ℕ × Segment → Bool
newer_later a b = leb b.0 a.0

-- Each rotated file is an entry of `files`, so there are at most as many as entries.
unfoldable pub discover_segments : Files → Text → Text → LineSource → List Segment
unfolding rotated_from segment_at
discover_segments files log_dir process source =
    let base = log_dir ++ bytes "/" ++ process ++ bytes "." ++ stream_name source in
    let rotated = rotated_from files base (length files) 1 in
    let segments = map (λ p. p.1) (sort_ord newer_later rotated) in
    if has_key base files then segments ++ segment_at files base ∷ [] else segments

pub record SegmentCache : Type 0 where
  pub stdout : List Segment
  pub stderr : List Segment
  pub refreshed_at : ℕ  -- milliseconds

pub record DiskLogReader : Type 0 where
  pub log_dir : Text
  pub process : Text
  pub cache : Option SegmentCache

-- `DiskLogReader::new`
unfoldable pub new_reader : Text → Text → DiskLogReader
new_reader log_dir process = record { log_dir = log_dir; process = process; cache = none }

abbrev pub segment_cache_ttl_ms : ℕ
segment_cache_ttl_ms = 500

abbrev pub of_source : LineSource → SegmentCache → List Segment
of_source stdout c = c.stdout
of_source stderr c = c.stderr

unfoldable pub discover_both : Files → ℕ → DiskLogReader → SegmentCache
unfolding discover_segments
discover_both files now r = record {
  stdout = discover_segments files r.log_dir r.process stdout;
  stderr = discover_segments files r.log_dir r.process stderr;
  refreshed_at = now;
}

abbrev pub refreshed : Files → ℕ → DiskLogReader → Option SegmentCache → SegmentCache
refreshed files now r none = discover_both files now r
refreshed files now r (some c) =
    if ltb segment_cache_ttl_ms (now - c.refreshed_at) then discover_both files now r else c

-- `segments`: those of the cache, which is discovered again when it is stale.
unfoldable pub segments : Files → ℕ → LineSource → DiskLogReader → List Segment × DiskLogReader
unfolding discover_both
segments files now source r =
    let c = refreshed files now r r.cache in (of_source source c, record r { cache = some c })

abbrev pub count_of : List Segment → ℕ
count_of ss = sum (map (λ s. s.line_count) ss)

unfoldable pub line_count : Files → ℕ → LineSource → DiskLogReader → ℕ × DiskLogReader
unfolding segments
line_count files now source r = let (ss, r') = segments files now source r in (count_of ss, r')

unfoldable pub line_count_both : Files → ℕ → DiskLogReader → ℕ × DiskLogReader
unfolding segments
line_count_both files now r =
    let (out, r') = segments files now stdout r in
    let (err, r'') = segments files now stderr r' in (count_of out + count_of err, r'')
