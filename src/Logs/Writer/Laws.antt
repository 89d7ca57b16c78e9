-- ===== src/Logs/Writer/Laws.antt =====
-- The current log file and its index stay coherent.
use agent_procs.Prelude.{
  ℕ, ◌+◌, ◌^◌, ◌<◌, ◌≡◌, sym, ap, subst, ◌∙◌, Bool, false, List, [], ◌∷◌, ◌++◌, some, Text, leb,
  if◌then◌else◌, length, length-append, append_assoc, append-nil, All, All-append, arith,
  Bool-cases, inl, inr,
}
use agent_procs.Prelude.Maps.{lookup, insert}
use agent_procs.Logs.Files.{Files, idx_path_for}
use agent_procs.Logs.Index.{IndexRecord, create, encode}
use agent_procs.Logs.IndexLaws.{Fits, written}
use agent_procs.Logs.Lines.{newline, unlines, OneLine}
use agent_procs.Logs.Entries.{entries, Holds}
use agent_procs.Logs.Writer.{
  LogWriteState, World, append_at, flush, put_line, flush_if_due, send, write_open, write_line,
  is_full, rotate, flush_every, OutputLine,
}
use agent_procs.Logs.Writer.Coherent.{
  lookup-insert_same, lookup-insert_other, index_other, log_other, Writing, append_at-some,
  unlines-append, next_record, entries-append, written-append,
}

module _ (st : LogWriteState) (w : World) (base : ℕ) (ls : List Text) (ss : List ℕ)
    (h : Writing st w base ls ss) where
  -- The index is whole on disk after a flush.
  abbrev pub flushed_files : Files
  flushed_files =
      insert (idx_path_for st.log_path) (written (create base) (entries 0 ls ss)) w.disk.files

  flush-insert : append_at w.disk.open_index st.pending w.disk.files ≡ flushed_files
  flush-insert =
      ap (λ o. append_at o st.pending w.disk.files) h.at
      ∙ append_at-some (idx_path_for st.log_path) st.pending h.flushed w.disk.files h.index
      ∙ ap (λ c. insert (idx_path_for st.log_path) c w.disk.files) h.whole

  pub flush-files : (flush (st, w)).1.disk.files ≡ flushed_files
  unfolding flush
  flush-files = flush-insert

  log_kept : lookup st.log_path flushed_files ≡ some (unlines ls)
  log_kept =
      lookup-insert_other (idx_path_for st.log_path) st.log_path _ w.disk.files
        (index_other st.log_path)
      ∙ h.log

  index_whole :
      lookup (idx_path_for st.log_path) flushed_files
      ≡ some (written (create base) (entries 0 ls ss))
  index_whole = lookup-insert_same (idx_path_for st.log_path) _ w.disk.files

  pub flush-Writing : Writing (flush (st, w)).0 (flush (st, w)).1 base ls ss
  unfolding flush
  flush-Writing = record {
    opened = h.opened;
    log = ap (lookup st.log_path) flush-insert ∙ log_kept;
    at = h.at;
    flushed = written (create base) (entries 0 ls ss);
    index = ap (lookup (idx_path_for st.log_path)) flush-insert ∙ index_whole;
    whole = append-nil (written (create base) (entries 0 ls ss));
    size = h.size;
    paired = h.paired;
    small_base = h.small_base;
    fits = h.fits;
    one_line = h.one_line;
  }

  -- After a flush, a reader finds the log and its index in agreement.
  pub flush-Holds :
      Holds (flush (st, w)).1.disk.files st.log_path (idx_path_for st.log_path) base ls ss
  unfolding flush
  flush-Holds = record {
    log = ap (lookup st.log_path) flush-insert ∙ log_kept;
    index = ap (lookup (idx_path_for st.log_path)) flush-insert ∙ index_whole;
    paired = h.paired;
    small_base = h.small_base;
    fits = h.fits;
    one_line = h.one_line;
  }

  abbrev put_files : Text → Files
  put_files line = insert st.log_path (unlines ls ++ (line ++ newline ∷ [])) w.disk.files

  put-insert :
      (line : Text)
      → append_at (some st.log_path) (line ++ newline ∷ []) w.disk.files ≡ put_files line
  put-insert line =
      append_at-some st.log_path (line ++ newline ∷ []) (unlines ls) w.disk.files h.log

  put_line-Writing :
      (line : Text)
      → OneLine line
      → st.bytes_written < 2 ^ 64
      → w.seq < 2 ^ 64
      → Writing
          (put_line line (st, w)).0
          (put_line line (st, w)).1
          base
          (ls ++ line ∷ [])
          (ss ++ w.seq ∷ [])
  put_line-Writing line one small small_seq =
      let r : IndexRecord = record { byte_offset = st.bytes_written; seq = w.seq } in
      let offset : st.bytes_written ≡ 0 + length (unlines ls) = omega (arith, h.size) in
      let longer : entries 0 (ls ++ line ∷ []) (ss ++ w.seq ∷ []) ≡ entries 0 ls ss ++ r ∷ [] =
        entries-append 0 ls ss line w.seq h.paired
        ∙ ap (λ o. entries 0 ls ss ++ next_record o w.seq ∷ []) (sym offset) in
      record {
        opened = h.opened;
        log =
            ap (lookup st.log_path) (put-insert line)
            ∙ lookup-insert_same st.log_path _ w.disk.files
            ∙ ap some (sym (unlines-append ls line));
        at = h.at;
        flushed = h.flushed;
        index =
            ap (lookup (idx_path_for st.log_path)) (put-insert line)
            ∙ lookup-insert_other st.log_path (idx_path_for st.log_path) _ w.disk.files
                (log_other st.log_path)
            ∙ h.index;
        whole =
            sym (append_assoc h.flushed st.pending (encode r))
            ∙ ap (λ x. x ++ encode r) h.whole
            ∙ sym (written-append (create base) (entries 0 ls ss) r)
            ∙ ap (written (create base)) (sym longer);
        size = omega (
          arith,
          h.size,
          ap length (unlines-append ls line),
          length-append (unlines ls) (line ++ newline ∷ []),
          length-append line (newline ∷ []),
        );
        paired =
            omega (arith, h.paired, length-append ss (w.seq ∷ []), length-append ls (line ∷ []));
        small_base = h.small_base;
        fits =
            subst (All Fits) (sym longer)
              (All-append Fits (entries 0 ls ss) (r ∷ []) h.fits ((small, small_seq), tt));
        one_line = All-append OneLine ls (line ∷ []) h.one_line (one, tt);
      }

-- The count of lines since the last flush, and what was sent, do not matter.
recount :
    (st : LogWriteState) (w : World) (base n : ℕ) (ls : List Text) (ss : List ℕ)
    → Writing st w base ls ss
    → Writing (record st { lines_since_idx_flush = n }) w base ls ss
recount st w base n ls ss h = record {
  opened = h.opened;
  log = h.log;
  at = h.at;
  flushed = h.flushed;
  index = h.index;
  whole = h.whole;
  size = h.size;
  paired = h.paired;
  small_base = h.small_base;
  fits = h.fits;
  one_line = h.one_line;
}

resend :
    (st : LogWriteState) (w : World) (base : ℕ) (sent : List OutputLine) (ls : List Text)
    (ss : List ℕ)
    → Writing st w base ls ss
    → Writing st (record w { sent = sent }) base ls ss
resend st w base sent ls ss h = record {
  opened = h.opened;
  log = h.log;
  at = h.at;
  flushed = h.flushed;
  index = h.index;
  whole = h.whole;
  size = h.size;
  paired = h.paired;
  small_base = h.small_base;
  fits = h.fits;
  one_line = h.one_line;
}

flush_if_due-Writing :
    (st : LogWriteState) (w : World) (base : ℕ) (ls : List Text) (ss : List ℕ)
    → Writing st w base ls ss
    → Writing (flush_if_due (st, w)).0 (flush_if_due (st, w)).1 base ls ss
flush_if_due-Writing st w base ls ss h =
    elim (Bool-cases (leb flush_every st.lines_since_idx_flush)) [
      | inl due ↦ rw due (
          recount (flush (st, w)).0 (flush (st, w)).1 base 0 ls ss
            (flush-Writing st w base ls ss h))
      | inr later ↦ rw later h
    ]

-- A text in one line, and room for its offset and its sequence number in 64 bits.
abbrev pub Writable : Text → LogWriteState → World → Type 0
Writable line st w = OneLine line × (st.bytes_written < 2 ^ 64) × (w.seq < 2 ^ 64)

pub write_open-Writing :
    (line : Text) (st : LogWriteState) (w : World) (base : ℕ) (ls : List Text) (ss : List ℕ)
    → Writing st w base ls ss
    → Writable line st w
    → Writing
        (write_open line (st, w)).0
        (write_open line (st, w)).1
        base
        (ls ++ line ∷ [])
        (ss ++ w.seq ∷ [])
write_open-Writing line st w base ls ss h (one, small, small_seq) =
    let put = put_line line (st, w) in
    let due = flush_if_due put in
    let sent = (send line due).1.sent in
    subst
      (λ b.
        Writing (if b then send line due else (st, w)).0 (if b then send line due else (st, w)).1
          base (ls ++ line ∷ []) (ss ++ w.seq ∷ []))
      (sym h.opened)
      (resend due.0 due.1 base sent (ls ++ line ∷ []) (ss ++ w.seq ∷ []) (
        flush_if_due-Writing put.0 put.1 base (ls ++ line ∷ []) (ss ++ w.seq ∷ [])
          (put_line-Writing st w base ls ss h line one small small_seq)))

-- Writing a line that fits in the file appends it to the lines of the file, with the next sequence
-- number, and keeps the file, the index and what the writer buffers coherent.
pub write_line-Writing :
    (can_create : Text → Bool) (line : Text) (st : LogWriteState) (w : World) (base : ℕ)
    (ls : List Text) (ss : List ℕ)
    → Writing st w base ls ss
    → Writable line st w
    → is_full line st ≡ false
    → Writing
        (write_line can_create line (st, w)).0
        (write_line can_create line (st, w)).1
        base
        (ls ++ line ∷ [])
        (ss ++ w.seq ∷ [])
unfolding write_line
write_line-Writing can_create line st w base ls ss h ok fits =
    subst (λ sw. Writing sw.0 sw.1 base (ls ++ line ∷ []) (ss ++ w.seq ∷ []))
      (ap
        (λ b.
          if b
          then (if (rotate can_create (st, w)).0
              then write_open line (rotate can_create (st, w)).1
              else (rotate can_create (st, w)).1)
          else write_open line (st, w))
        (sym fits))
      (write_open-Writing line st w base ls ss h ok)
