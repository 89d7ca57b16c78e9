-- ===== src/Logs/Writer/Rotation.antt =====
-- A rotation keeps the old log with its index, and starts a new one.
use agent_procs.Prelude.{
  ℕ, ◌^◌, ◌≤◌, ◌<◌, ◌≡◌, refl, sym, ap, subst, ◌∙◌, Bool, true, false, List, [], ◌∷◌, ◌++◌, Option,
  none, some, Text, text_eq, if◌then◌else◌, arith, leb, append-nil,
}
use agent_procs.Prelude.Maps.{lookup, insert}
use agent_procs.Logs.Files.{Files, idx_path_for, rotated_path}
use agent_procs.Logs.Index.{create}
use agent_procs.Logs.IndexLaws.{written}
use agent_procs.Logs.Lines.{unlines, newline}
use agent_procs.Logs.Entries.{entries, Holds}
use agent_procs.Logs.Writer.{
  LogWriteState, World, Writer, rotate_log_files, recreate, flush, rotate, write_open, write_line,
  is_full, flush_if_due, flush_every, put_line, send, add_to, append_at,
}
use agent_procs.Logs.Writer.Laws.{Writable, write_open-Writing, flush-Holds}
use agent_procs.Logs.Writer.Coherent.{Writing, lookup-insert_same, lookup-insert_other, index_other}
use agent_procs.Logs.Writer.Paths.{index-first, log-first, log-first_index, index-first_index}
use agent_procs.Logs.Writer.Moves.{rotate_log_files-first}

module _ (j : Text) (found : Option (List ℕ)) where
  abbrev Finds : Writer → Type 0
  Finds sw = lookup j sw.1.disk.files ≡ found

  choose-Finds : (b : Bool) (x y : Writer) → Finds x → Finds y → Finds (if b then x else y)
  choose-Finds true x y h k = h
  choose-Finds false x y h k = k

  add_to-other :
      (path : Text) (new : List ℕ) (o : Option (List ℕ)) (files : Files)
      → text_eq path j ≡ false
      → lookup j (add_to path new o files) ≡ lookup j files
  add_to-other path new none files h = refl
  add_to-other path new (some c) files h = lookup-insert_other path j (c ++ new) files h

  flush-Finds :
      (st : LogWriteState) (w : World)
      → w.disk.open_index ≡ some (idx_path_for st.log_path)
      → text_eq (idx_path_for st.log_path) j ≡ false
      → Finds (st, w)
      → Finds (flush (st, w))
  unfolding flush
  flush-Finds st w at i h =
      ap (λ o. lookup j (append_at o st.pending w.disk.files)) at
      ∙ add_to-other (idx_path_for st.log_path) st.pending _ w.disk.files i
      ∙ h

  flush_if_due-Finds :
      (st : LogWriteState) (w : World)
      → w.disk.open_index ≡ some (idx_path_for st.log_path)
      → text_eq (idx_path_for st.log_path) j ≡ false
      → Finds (st, w)
      → Finds (flush_if_due (st, w))
  flush_if_due-Finds st w at i h =
      let tw = flush (st, w) in
      choose-Finds (leb flush_every st.lines_since_idx_flush)
        (record tw.0 { lines_since_idx_flush = 0 }, tw.1) (st, w) (flush-Finds st w at i h) h

  -- Writing a line changes no file but the current log and its index.
  write_open-Finds :
      (line : Text) (st : LogWriteState) (w : World)
      → w.disk.open_index ≡ some (idx_path_for st.log_path)
      → text_eq st.log_path j ≡ false
      → text_eq (idx_path_for st.log_path) j ≡ false
      → Finds (st, w)
      → Finds (write_open line (st, w))
  write_open-Finds line st w at l i h =
      let put = put_line line (st, w) in
      let put_found : Finds put =
        add_to-other st.log_path (line ++ newline ∷ []) (lookup st.log_path w.disk.files)
          w.disk.files l
        ∙ h in
      let due_found : Finds (flush_if_due put) = flush_if_due-Finds put.0 put.1 at i put_found in
      choose-Finds st.file (send line (flush_if_due put)) (st, w) due_found h

-- The writer with its new log file and index.
abbrev renewed : LogWriteState → World → Writer
renewed st w = (
  record st { file = true; pending = []; bytes_written = 0; lines_since_idx_flush = 0 },
  record w {
    disk = record {
      files = insert (idx_path_for st.log_path) (create w.seq) (insert st.log_path [] w.disk.files);
      open_index = some (idx_path_for st.log_path);
    };
  },
)

recreate-renewed :
    (can_create : Text → Bool) (st : LogWriteState) (w : World)
    → can_create st.log_path ≡ true
    → can_create (idx_path_for st.log_path) ≡ true
    → recreate can_create (st, w) ≡ (true, renewed st w)
recreate-renewed can_create st w log_ok idx_ok = rw (log_ok, idx_ok) refl

renewed-Writing :
    (st : LogWriteState) (w : World)
    → w.seq < 2 ^ 64
    → Writing (renewed st w).0 (renewed st w).1 w.seq [] []
unfolding unlines
renewed-Writing st w small = record {
  opened = refl;
  log =
      lookup-insert_other (idx_path_for st.log_path) st.log_path (create w.seq)
        (insert st.log_path [] w.disk.files) (index_other st.log_path)
      ∙ lookup-insert_same st.log_path [] w.disk.files;
  at = refl;
  flushed = create w.seq;
  index =
      lookup-insert_same (idx_path_for st.log_path) (create w.seq)
        (insert st.log_path [] w.disk.files);
  whole = append-nil (create w.seq);
  size = refl;
  paired = refl;
  small_base = small;
  fits = tt;
  one_line = tt;
}

module _ (can_create : Text → Bool) (line : Text) (st : LogWriteState) (w : World) where
  -- The state in which the new files are made.
  abbrev before : Writer
  before =
      let (st', w') = flush (st, w) in
      (
        record st' { file = false },
        record w' { disk = rotate_log_files st'.log_path st'.max_rotated_files w'.disk },
      )

  write_line-renewed :
      is_full line st ≡ true
      → can_create st.log_path ≡ true
      → can_create (idx_path_for st.log_path) ≡ true
      → write_line can_create line (st, w) ≡ write_open line (renewed before.0 before.1)
  unfolding write_line rotate flush
  write_line-renewed full log_ok idx_ok =
      ap
        (λ b.
          if b
          then (if (rotate can_create (st, w)).0
              then write_open line (rotate can_create (st, w)).1
              else (rotate can_create (st, w)).1)
          else write_open line (st, w))
        full
      ∙ ap (λ p. if p.0 then write_open line p.1 else p.1)
          (recreate-renewed can_create before.0 before.1 log_ok idx_ok)

-- A file that the rotation left, at a path other than the current ones, is still there after the new
-- files are made and a line is written.
still_there :
    (j line : Text) (c : List ℕ) (st : LogWriteState) (w : World)
    → text_eq st.log_path j ≡ false
    → text_eq (idx_path_for st.log_path) j ≡ false
    → lookup j w.disk.files ≡ some c
    → lookup j (write_open line (renewed st w)).1.disk.files ≡ some c
still_there j line c st w l i e =
    write_open-Finds j (some c) line (renewed st w).0 (renewed st w).1 refl l i (
      lookup-insert_other (idx_path_for st.log_path) j (create w.seq)
        (insert st.log_path [] w.disk.files) i
      ∙ lookup-insert_other st.log_path j [] w.disk.files l
      ∙ e)

-- When a line does not fit, the new files can be made and at least one rotated file is kept, the
-- writer starts a log of that one line, and the lines before it stay readable, all of them, in the
-- first rotated file.
pub write_line-rotates :
    (can_create : Text → Bool) (line : Text) (st : LogWriteState) (w : World) (base : ℕ)
    (ls : List Text) (ss : List ℕ)
    → Writing st w base ls ss
    → Writable line st w
    → is_full line st ≡ true
    → can_create st.log_path ≡ true
    → can_create (idx_path_for st.log_path) ≡ true
    → 1 ≤ st.max_rotated_files
    → Writing
        (write_line can_create line (st, w)).0
        (write_line can_create line (st, w)).1
        w.seq
        (line ∷ [])
        (w.seq ∷ [])
      × Holds
          (write_line can_create line (st, w)).1.disk.files
          (rotated_path st.log_path 1)
          (idx_path_for (rotated_path st.log_path 1))
          base
          ls
          ss
unfolding flush
write_line-rotates can_create line st w base ls ss h ok full log_ok idx_ok keeps =
    let p = st.log_path in
    let r = rotated_path p 1 in
    let b = before can_create line st w in
    let new = renewed b.0 b.1 in
    let same = write_line-renewed can_create line st w full log_ok idx_ok in
    let held = flush-Holds st w base ls ss h in
    let kept =
      rotate_log_files-first p st.max_rotated_files (flush (st, w)).1.disk (unlines ls)
        (written (create base) (entries 0 ls ss)) keeps held.log held.index in
    let after = write_open line new in
    (
      subst (λ tw. Writing tw.0 tw.1 w.seq (line ∷ []) (w.seq ∷ [])) (sym same)
          (write_open-Writing line new.0 new.1 w.seq [] [] (renewed-Writing b.0 b.1 ok.2)
            (ok.0, omega arith, ok.2)),
      subst (λ tw. Holds tw.1.disk.files r (idx_path_for r) base ls ss) (sym same)
          (record {
            log = still_there r line (unlines ls) b.0 b.1 (log-first p) (index-first p) kept.0;
            index =
                still_there (idx_path_for r) line (written (create base) (entries 0 ls ss)) b.0 b.1
                  (log-first_index p) (index-first_index p) kept.1;
            paired = h.paired;
            small_base = h.small_base;
            fits = h.fits;
            one_line = h.one_line;
          }),
    )
