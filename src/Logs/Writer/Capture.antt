-- ===== src/Logs/Writer/Capture.antt =====
-- What is captured is read back.
use agent_procs.Tui.Disk.Segment.Laws.{read_lines_from_segment-Holds}
use agent_procs.Tui.Disk.Segment.{read_lines_from_segment}
use mathlib.Core.Option.{some-injective}
use agent_procs.Prelude.{
  ℕ, ◌+◌, ◌^◌, ◌<◌, ◌≤◌, ◌⊎◌, ◌≡◌, refl, sym, ap, subst, ◌∙◌, Bool, true, false, List, [], ◌∷◌,
  ◌++◌, none, some, Text, leb, if◌then◌else◌, length, length-append, append_assoc, append-nil, take,
  drop, All, arith, Bool-cases, inl, inr, not,
}
use agent_procs.Prelude.Maps.{lookup, insert}
use agent_procs.Protocol.{Stream}
use agent_procs.Logs.Files.{Files, idx_path_for}
use agent_procs.Logs.Index.{create}
use agent_procs.Logs.Lines.{unlines, newline, OneLine}
use agent_procs.Logs.Entries.{Holds}
use agent_procs.Logs.Writer.{
  LogWriteState, World, Writer, OutputLine, flush, put_line, flush_if_due, flush_every, send,
  write_open, write_line, write_lines, is_full, rotate, capture_output, open_sink_at, start_writer,
}
use agent_procs.Logs.Writer.Laws.{write_line-Writing, flush-Holds}
use agent_procs.Logs.Writer.Coherent.{Writing, lookup-insert_same, lookup-insert_other, index_other}

-- What a writer keeps when it writes a line, and the next sequence number.
abbrev Next : ℕ → Writer → Writer → Type 0
Next n sw tw =
    (tw.0.log_path ≡ sw.0.log_path) × (tw.0.max_bytes ≡ sw.0.max_bytes) × (tw.1.seq ≡ sw.1.seq + n)

flush_if_due-Next : (st : LogWriteState) (w : World) → Next 0 (st, w) (flush_if_due (st, w))
unfolding flush
flush_if_due-Next st w = elim (Bool-cases (leb flush_every st.lines_since_idx_flush)) [
  | inl due ↦ rw due (refl, refl, omega arith)
  | inr later ↦ rw later (refl, refl, omega arith)
]

length-unlines :
    (xs ys : List Text) → length (unlines (xs ++ ys)) ≡ length (unlines xs) + length (unlines ys)
unfolding unlines
length-unlines [] ys = omega arith
length-unlines (x ∷ xs) ys = omega (
  arith,
  length-unlines xs ys,
  length-append x (newline ∷ unlines (xs ++ ys)),
  length-append x (newline ∷ unlines xs),
)

length-unlines_cons :
    (x : Text) (xs : List Text) → length (unlines (x ∷ xs)) ≡ length x + (length (unlines xs) + 1)
unfolding unlines
length-unlines_cons x xs = omega (arith, length-append x (newline ∷ unlines xs))

sink_files :
    (a b : Bool) (x y : Files)
    → (if not a then none else if not b then none else some x) ≡ some y
    → x ≡ y
sink_files false b x y h = absurd (cc)
sink_files true false x y h = absurd (cc)
sink_files true true x y h = some-injective x y h

-- Rotation is off, or the lines all fit in one log of the maximal size.
abbrev pub FitsLog : ℕ → List Text → Type 0
FitsLog max_bytes lines = (max_bytes ≡ 0) ⊎ (length (unlines lines) ≤ max_bytes)

abbrev Unfilled : Text → LogWriteState → Type 0
Unfilled line st = (st.max_bytes ≡ 0) ⊎ (st.bytes_written + (length line + 1) ≤ st.max_bytes)

module _ (can_create : Text → Bool) where
  not_full : (line : Text) (st : LogWriteState) → Unfilled line st → is_full line st ≡ false
  not_full line st (inl off) = ground (arith, off)
  not_full line st (inr room) = ground (arith, room)

  write_line-open :
      (line : Text) (st : LogWriteState) (w : World)
      → Unfilled line st
      → st.file ≡ true
      → write_line can_create line (st, w) ≡ send line (flush_if_due (put_line line (st, w)))
  unfolding write_line
  write_line-open line st w e o =
      ap
        (λ b.
          if b
          then (if (rotate can_create (st, w)).0
              then write_open line (rotate can_create (st, w)).1
              else (rotate can_create (st, w)).1)
          else write_open line (st, w))
        (not_full line st e)
      ∙ ap (λ b. if b then send line (flush_if_due (put_line line (st, w))) else (st, w)) o

  write_line-Next :
      (line : Text) (st : LogWriteState) (w : World)
      → Unfilled line st
      → st.file ≡ true
      → Next 1 (st, w) (write_line can_create line (st, w))
  write_line-Next line st w e o =
      let put = put_line line (st, w) in
      let kept = flush_if_due-Next put.0 put.1 in
      subst (λ tw. Next 1 (st, w) tw) (sym (write_line-open line st w e o))
        (kept.0, kept.1, omega (arith, kept.2))

  abbrev pub seqs : ℕ → List Text → List ℕ
  seqs n [] = []
  seqs n (l ∷ ls) = n ∷ seqs (n + 1) ls

  write_lines-Writing :
      (new : List Text) (st : LogWriteState) (w : World) (base : ℕ) (ls : List Text) (ss : List ℕ)
      → Writing st w base ls ss
      → FitsLog st.max_bytes (ls ++ new)
      → All OneLine new
      → length (unlines (ls ++ new)) < 2 ^ 64
      → w.seq + length new < 2 ^ 64
      → Writing
          (write_lines can_create new (st, w)).0
          (write_lines can_create new (st, w)).1
          base
          (ls ++ new)
          (ss ++ seqs w.seq new)
        × ((write_lines can_create new (st, w)).0.log_path ≡ st.log_path)
  write_lines-Writing [] st w base ls ss h e o small small_seq = (
    subst (λ x. Writing st w base x (ss ++ [])) (sym (append-nil ls))
        (subst (Writing st w base ls) (sym (append-nil ss)) h),
    refl,
  )
  write_lines-Writing (l ∷ new) st w base ls ss h e o small small_seq =
      let tw = write_line can_create l (st, w) in
      let room : length (unlines ls) < 2 ^ 64 = omega (arith, small, length-unlines ls (l ∷ new)) in
      let small_bytes : st.bytes_written < 2 ^ 64 = omega (arith, room, h.size) in
      let grown = length-unlines ls (l ∷ new) in
      let here = length-unlines_cons l new in
      let free : Unfilled l st = elim e [
        | inl off ↦ inl off
        | inr most ↦ inr (omega (arith, h.size, most, grown, here))
      ] in
      let next =
        write_line-Writing can_create l st w base ls ss h
          (o.0, small_bytes, omega (arith, small_seq)) (not_full l st free) in
      let kept = write_line-Next l st w free h.opened in
      let lines : (ls ++ l ∷ []) ++ new ≡ ls ++ l ∷ new = append_assoc ls (l ∷ []) new in
      let numbers : (ss ++ w.seq ∷ []) ++ seqs tw.1.seq new ≡ ss ++ seqs w.seq (l ∷ new) =
        append_assoc ss (w.seq ∷ []) (seqs tw.1.seq new)
        ∙ ap (λ n. ss ++ w.seq ∷ seqs n new) kept.2 in
      let fits = ap (λ x. length (unlines x)) lines in
      let rest =
        write_lines-Writing new tw.0 tw.1 base (ls ++ l ∷ []) (ss ++ w.seq ∷ []) next
          (subst (λ x. FitsLog tw.0.max_bytes x) (sym lines)
            (subst (λ b. FitsLog b (ls ++ l ∷ new)) (sym kept.1) e))
          o.1 (omega (arith, fits, small)) (omega (arith, small_seq, kept.2)) in
      let done = write_lines can_create new tw in
      (
        subst (λ x. Writing done.0 done.1 base x (ss ++ seqs w.seq (l ∷ new))) lines
            (subst (Writing done.0 done.1 base ((ls ++ l ∷ []) ++ new)) numbers rest.0),
        rest.1 ∙ kept.0,
      )

  pub start-Writing :
      (log_path name : Text) (stream : Stream) (max_bytes max_rotated_files seq : ℕ)
      (files files' : Files) (sent : List OutputLine)
      → open_sink_at can_create log_path seq files ≡ some files'
      → seq < 2 ^ 64
      → Writing
          (start_writer log_path name stream max_bytes max_rotated_files files' seq sent).0
          (start_writer log_path name stream max_bytes max_rotated_files files' seq sent).1
          seq
          []
          []
  unfolding start_writer open_sink_at unlines
  start-Writing log_path name stream max_bytes max_rotated_files seq files files' sent h small =
      let idx = idx_path_for log_path in
      let both_new = insert idx (create seq) (insert log_path [] files) in
      let new : both_new ≡ files' =
        sink_files (can_create log_path) (can_create idx) both_new files' h in
      record {
        opened = refl;
        log =
            ap (lookup log_path) (sym new)
            ∙ lookup-insert_other idx log_path (create seq) (insert log_path [] files)
                (index_other log_path)
            ∙ lookup-insert_same log_path [] files;
        at = refl;
        flushed = create seq;
        index =
            ap (lookup idx) (sym new)
            ∙ lookup-insert_same idx (create seq) (insert log_path [] files);
        whole = append-nil (create seq);
        size = refl;
        paired = refl;
        small_base = small;
        fits = tt;
        one_line = tt;
      }

  -- The lines that a stream gives are all in its log when the capture ends, each in one line, and the
  -- index agrees with the log, if rotation is off or the lines fit in one log, and the sizes fit in 64
  -- bits.
  pub capture_output-Holds :
      (log_path name : Text) (stream : Stream) (max_bytes max_rotated_files seq : ℕ)
      (files files' : Files) (sent : List OutputLine) (lines : List Text)
      → open_sink_at can_create log_path seq files ≡ some files'
      → FitsLog max_bytes lines
      → All OneLine lines
      → length (unlines lines) < 2 ^ 64
      → seq + length lines < 2 ^ 64
      → Holds
          (capture_output can_create lines (
            start_writer log_path name stream max_bytes max_rotated_files files' seq
              sent)).1.disk.files
          log_path
          (idx_path_for log_path)
          seq
          lines
          (seqs seq lines)
  unfolding capture_output start_writer
  capture_output-Holds log_path name stream max_bytes max_rotated_files seq files files' sent lines
        h fit o small small_seq =
      let sw = start_writer log_path name stream max_bytes max_rotated_files files' seq sent in
      let begun =
        start-Writing log_path name stream max_bytes max_rotated_files seq files files' sent h
          (omega (arith, small_seq)) in
      let ended = write_lines-Writing lines sw.0 sw.1 seq [] [] begun fit o small small_seq in
      let tw = write_lines can_create lines sw in
      subst (λ p. Holds (flush tw).1.disk.files p (idx_path_for p) seq lines (seqs seq lines))
        ended.1 (flush-Holds tw.0 tw.1 seq lines (seqs seq lines) ended.0)

  -- What was captured is read back: when the capture ends, a reader finds any window of the lines of
  -- the stream, if the log and its index could be made, rotation is off or the lines fit in one log of
  -- the maximal size, each has no newline in it, and the sizes and sequence numbers fit in 64 bits.
  pub capture_output-read_lines_from_segment :
      (log_path name : Text) (stream : Stream) (max_bytes max_rotated_files seq : ℕ)
      (files files' : Files) (sent : List OutputLine) (lines : List Text) (start count : ℕ)
      → open_sink_at can_create log_path seq files ≡ some files'
      → FitsLog max_bytes lines
      → All OneLine lines
      → length (unlines lines) < 2 ^ 64
      → seq + length lines < 2 ^ 64
      → read_lines_from_segment
          (capture_output can_create lines (
            start_writer log_path name stream max_bytes max_rotated_files files' seq
              sent)).1.disk.files
          log_path
          (idx_path_for log_path)
          start
          count
        ≡ some (take count (drop start lines))
  capture_output-read_lines_from_segment log_path name stream max_bytes max_rotated_files seq files
        files' sent lines start count h fit o small small_seq =
      read_lines_from_segment-Holds _ log_path (idx_path_for log_path) seq lines (seqs seq lines)
        (capture_output-Holds log_path name stream max_bytes max_rotated_files seq files files' sent
          lines h fit o small small_seq)
        start count
