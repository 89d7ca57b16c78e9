-- ===== src/Logs/Writer/Coherent.antt =====
-- What the current log file and its index are to the writer, and what one more line adds to them.
use agent_procs.Logs.Writer.Paths.{longer_other, shorter_other}
use agent_procs.Prelude.{
  ℕ, ◌+◌, ◌^◌, ◌<◌, ◌≡◌, refl, sym, ap, ◌∙◌, true, false, List, [], ◌∷◌, ◌++◌, some, Text, bytes,
  text_eq, text_eq_refl, if◌then◌else◌, length, length-append, append_assoc, All, arith,
}
use agent_procs.Prelude.Maps.{lookup, insert, lookup-insert}
use agent_procs.Logs.Files.{Files, idx_path_for}
use agent_procs.Logs.Index.{IndexRecord, create, encode, append}
use agent_procs.Logs.IndexLaws.{Fits, written}
use agent_procs.Logs.Lines.{newline, unlines, OneLine}
use agent_procs.Logs.Entries.{entries}
use agent_procs.Logs.Writer.{LogWriteState, World, append_at, add_to}

pub lookup-insert_same : (k : Text) (v : List ℕ) (m : Files) → lookup k (insert k v m) ≡ some v
lookup-insert_same k v m =
    lookup-insert k k v m ∙ ap (λ b. if b then some v else lookup k m) (text_eq_refl k)

pub lookup-insert_other :
    (k j : Text) (v : List ℕ) (m : Files)
    → text_eq k j ≡ false
    → lookup j (insert k v m) ≡ lookup j m
lookup-insert_other k j v m h = lookup-insert k j v m ∙ ap (λ b. if b then some v else lookup j m) h

-- A log is not its own index.
length-idx_path_for : (path : Text) → length path < length (idx_path_for path)
length-idx_path_for path = omega (arith, length-append path (bytes ".idx"))

pub index_other : (path : Text) → text_eq (idx_path_for path) path ≡ false
index_other path = shorter_other (idx_path_for path) path (length-idx_path_for path)

pub log_other : (path : Text) → text_eq path (idx_path_for path) ≡ false
log_other path = longer_other path (idx_path_for path) (length-idx_path_for path)

-- The writer has the current log and its index open; together with what it buffers, they hold these
-- lines, with these sequence numbers.
pub record Writing (st : LogWriteState) (w : World) (base : ℕ) (ls : List Text) (ss : List ℕ)
    : Type 0 where
  pub opened : st.file ≡ true
  pub log : lookup st.log_path w.disk.files ≡ some (unlines ls)
  pub at : w.disk.open_index ≡ some (idx_path_for st.log_path)
  pub flushed : List ℕ
  pub index : lookup (idx_path_for st.log_path) w.disk.files ≡ some flushed
  pub whole : flushed ++ st.pending ≡ written (create base) (entries 0 ls ss)
  pub size : st.bytes_written ≡ length (unlines ls)
  pub paired : length ss ≡ length ls
  pub small_base : base < 2 ^ 64
  pub fits : All Fits (entries 0 ls ss)
  pub one_line : All OneLine ls

pub append_at-some :
    (path : Text) (new contents : List ℕ) (files : Files)
    → lookup path files ≡ some contents
    → append_at (some path) new files ≡ insert path (contents ++ new) files
append_at-some path new contents files e = ap (λ o. add_to path new o files) e

pub unlines-append :
    (ls : List Text) (l : Text) → unlines (ls ++ l ∷ []) ≡ unlines ls ++ (l ++ newline ∷ [])
unfolding unlines
unlines-append [] l = refl
unlines-append (k ∷ ls) l =
    ap (λ u. k ++ newline ∷ u) (unlines-append ls l)
    ∙ sym (append_assoc k (newline ∷ unlines ls) (l ++ newline ∷ []))

-- The record of a line that is written next.
abbrev pub next_record : ℕ → ℕ → IndexRecord
next_record offset seq = record { byte_offset = offset; seq = seq }

pub entries-append :
    (offset : ℕ) (ls : List Text) (ss : List ℕ) (l : Text) (s : ℕ)
    → length ss ≡ length ls
    → entries offset (ls ++ l ∷ []) (ss ++ s ∷ [])
      ≡ entries offset ls ss ++ next_record (offset + length (unlines ls)) s ∷ []
unfolding unlines
entries-append offset [] [] l s e = ap (λ o. next_record o s ∷ []) (omega arith)
entries-append offset [] (t ∷ ss) l s e = absurd (omega (arith, e))
entries-append offset (k ∷ ls) [] l s e = absurd (omega (arith, e))
entries-append offset (k ∷ ls) (t ∷ ss) l s e =
    let place : offset + length k + 1 + length (unlines ls)
        ≡ offset + length (k ++ newline ∷ unlines ls) =
      omega (arith, length-append k (newline ∷ unlines ls)) in
    ap (◌∷◌ (next_record offset t)) (
      entries-append (offset + length k + 1) ls ss l s (omega (arith, e))
      ∙ ap (λ o. entries (offset + length k + 1) ls ss ++ next_record o s ∷ []) place)

pub written-append :
    (file : List ℕ) (rs : List IndexRecord) (r : IndexRecord)
    → written file (rs ++ r ∷ []) ≡ written file rs ++ encode r
unfolding append
written-append file [] r = refl
written-append file (q ∷ rs) r = written-append (append file q) rs r
