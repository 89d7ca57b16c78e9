-- ===== src/Examples/Capture.antt =====
-- A stream that gives two lines.
use agent_procs.Logs.Entries.{Holds}
use agent_procs.Logs.Writer.Rotation.{write_line-rotates}
use agent_procs.Prelude.Texts.{text_eq}
use agent_procs.Prelude.Maps.{insert}
use agent_procs.Prelude.{
  ◌≡◌, refl, Bool, true, false, List, [], ◌∷◌, some, Text, bytes, take, drop, length, arith, All,
  ◌<◌, ◌^◌, ◌≤◌, inr,
}
use agent_procs.Protocol.{Stream}
use agent_procs.Logs.Files.{Files, idx_path_for, rotated_path}
use agent_procs.Logs.Index.{create}
use agent_procs.Logs.Lines.{unlines, OneLine}
use agent_procs.Logs.Writer.{
  Writer, open_sink_at, start_writer, capture_output, write_line, is_full, flush,
}
use agent_procs.Logs.Writer.Laws.{write_line-Writing, Writable}
use agent_procs.Logs.Writer.Coherent.{Writing}
use agent_procs.Logs.Writer.Capture.{FitsLog, start-Writing, capture_output-read_lines_from_segment}
use agent_procs.Tui.Disk.Segment.{read_lines_from_segment}

abbrev all_paths : Text → Bool
all_paths p = true

abbrev log : Text
log = bytes "/l/web.stdout"

abbrev lines : List Text
lines = bytes "boot" ∷ bytes "ready" ∷ []

abbrev new_files : Files
new_files = (log, []) ∷ (idx_path_for log, create 0) ∷ []

opened : open_sink_at all_paths log 0 [] ≡ some new_files
unfolding open_sink_at insert text_eq
opened = refl

one_line : All OneLine lines
one_line = (refl, (refl, tt))

short : length (unlines lines) < 2 ^ 64
unfolding unlines
short = omega arith

-- The daemon's maximal size.
fits_log : FitsLog 52428800 lines
unfolding unlines
fits_log = inr (omega arith)

abbrev begun : Writer
begun = start_writer log (bytes "web") Stream.stdout 52428800 5 new_files 0 []

capture_output-read_lines_from_segment_example :
    read_lines_from_segment
      (capture_output all_paths lines begun).1.disk.files
      log
      (idx_path_for log)
      1
      5
    ≡ some (take 5 (drop 1 lines))
capture_output-read_lines_from_segment_example =
    capture_output-read_lines_from_segment all_paths log (bytes "web") Stream.stdout 52428800 5 0 []
      new_files [] lines 1 5 opened fits_log one_line short (omega arith)

begun-Writing : Writing begun.0 begun.1 0 [] []
begun-Writing =
    start-Writing all_paths log (bytes "web") Stream.stdout 52428800 5 0 [] new_files [] opened
      (omega arith)

not_full : is_full (bytes "boot") begun.0 ≡ false
unfolding start_writer
not_full = refl

writable : Writable (bytes "boot") begun.0 begun.1
unfolding start_writer
writable = (refl, omega arith, omega arith)

write_line-Writing_example :
    Writing
      (write_line all_paths (bytes "boot") begun).0
      (write_line all_paths (bytes "boot") begun).1
      0
      (bytes "boot" ∷ [])
      (begun.1.seq ∷ [])
write_line-Writing_example =
    write_line-Writing all_paths (bytes "boot") begun.0 begun.1 0 [] [] begun-Writing writable
      not_full

-- A log that has room for one of the lines.
abbrev small : Writer
small = start_writer log (bytes "web") Stream.stdout 8 5 new_files 0 []

abbrev booted : Writer
booted = write_line all_paths (bytes "boot") small

small-Writing : Writing small.0 small.1 0 [] []
small-Writing =
    start-Writing all_paths log (bytes "web") Stream.stdout 8 5 0 [] new_files [] opened
      (omega arith)

small_fits : is_full (bytes "boot") small.0 ≡ false
unfolding start_writer
small_fits = refl

small-Writable : Writable (bytes "boot") small.0 small.1
unfolding start_writer
small-Writable = (refl, omega arith, omega arith)

booted-Writing : Writing booted.0 booted.1 0 (bytes "boot" ∷ []) (small.1.seq ∷ [])
booted-Writing =
    write_line-Writing all_paths (bytes "boot") small.0 small.1 0 [] [] small-Writing small-Writable
      small_fits

booted-Writable : Writable (bytes "ready") booted.0 booted.1
unfolding start_writer write_line flush
booted-Writable = (refl, omega arith, omega arith)

booted_full : is_full (bytes "ready") booted.0 ≡ true
unfolding start_writer write_line flush
booted_full = refl

keeps_some : 1 ≤ booted.0.max_rotated_files
unfolding start_writer write_line flush
keeps_some = omega arith

write_line-rotates_example :
    Writing
      (write_line all_paths (bytes "ready") booted).0
      (write_line all_paths (bytes "ready") booted).1
      booted.1.seq
      (bytes "ready" ∷ [])
      (booted.1.seq ∷ [])
    × Holds
        (write_line all_paths (bytes "ready") booted).1.disk.files
        (rotated_path booted.0.log_path 1)
        (idx_path_for (rotated_path booted.0.log_path 1))
        0
        (bytes "boot" ∷ [])
        (small.1.seq ∷ [])
write_line-rotates_example =
    write_line-rotates all_paths (bytes "ready") booted.0 booted.1 0 (bytes "boot" ∷ [])
      (small.1.seq ∷ []) booted-Writing booted-Writable booted_full refl refl keeps_some
