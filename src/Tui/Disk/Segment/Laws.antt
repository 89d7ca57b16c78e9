-- ===== src/Tui/Disk/Segment/Laws.antt =====
-- A log file that the writer kept coherent with its index is read line by line, with the index or
-- without it.
use agent_procs.Prelude.{
  ℕ, zero, suc, ◌+◌, ◌≡◌, refl, sym, ap, ◌∙◌, List, [], ◌∷◌, ◌++◌, none, some, Text, ◌==◌, ==_iff,
  length, length-append, length-drop, length-take, take, drop, drop_front, All-drop, min, All,
  arith, Bool-cases, inl, inr, append_assoc, take_cut, empty, ◌⊎◌,
}
use agent_procs.Prelude.Maps.{lookup}
use agent_procs.Logs.Files.{Files}
use agent_procs.Logs.Entries.{entries, Holds, length-entries}
use agent_procs.Logs.Index.{IndexRecord}
use agent_procs.Logs.IndexLaws.{reader, open_index-written, read_range-written}
use agent_procs.Logs.Lines.{
  unlines, newline, read_n, read_n-unlines, buf_lines-unlines, OneLine, Stripped,
}
use agent_procs.Tui.Disk.Segment.{
  read_lines_from_segment, read_records, open_at, from_offset, open_bytes, Segment,
}

-- The bytes before line `k`.
abbrev offset_of : ℕ → List Text → ℕ
offset_of zero ls = 0
offset_of (suc k) [] = 0
offset_of (suc k) (l ∷ ls) = length l + 1 + offset_of k ls

drop-entries :
    (k offset : ℕ) (ls : List Text) (ss : List ℕ)
    → length ss ≡ length ls
    → drop k (entries offset ls ss) ≡ entries (offset + offset_of k ls) (drop k ls) (drop k ss)
drop-entries zero offset ls ss e = ap (λ o. entries o ls ss) (omega arith)
drop-entries (suc k) offset [] ss e = refl
drop-entries (suc k) offset (l ∷ ls) [] e = absurd (omega (arith, e))
drop-entries (suc k) offset (l ∷ ls) (s ∷ ss) e =
    drop-entries k (offset + length l + 1) ls ss (omega (arith, e))
    ∙ ap (λ o. entries o (drop k ls) (drop k ss)) (omega arith)

drop-unlines : (k : ℕ) (ls : List Text) → drop (offset_of k ls) (unlines ls) ≡ unlines (drop k ls)
unfolding unlines
drop-unlines zero ls = refl
drop-unlines (suc k) [] = refl
drop-unlines (suc k) (l ∷ ls) =
    ap (λ x. drop (offset_of (suc k) (l ∷ ls)) x) (sym (append_assoc l (newline ∷ []) (unlines ls)))
    ∙ ap (λ n. drop n ((l ++ newline ∷ []) ++ unlines ls))
        (omega (arith, length-append l (newline ∷ [])))
    ∙ drop_front (offset_of k ls) (l ++ newline ∷ []) (unlines ls)
    ∙ drop-unlines k ls

-- The offset of the first of the lines from `start` on.
head_offset :
    (k start : ℕ) (ls : List Text) (ss : List ℕ) (r : IndexRecord) (rs : List IndexRecord)
    → r ∷ rs ≡ take k (entries start ls ss)
    → r.byte_offset ≡ start
head_offset zero start ls ss r rs h = absurd (cc)
head_offset (suc k) start [] ss r rs h = absurd (cc)
head_offset (suc k) start (l ∷ ls) [] r rs h = absurd (cc)
head_offset (suc k) start (l ∷ ls) (s ∷ ss) r rs h =
    let first : r ≡ record { byte_offset = start; seq = s } = cc in ap (λ q. q.byte_offset) first

window :
    (files : Files) (log_path : Text) (ls : List Text) (start k : ℕ) (rs : List IndexRecord)
    (ss : List ℕ)
    → lookup log_path files ≡ some (unlines ls)
    → All OneLine ls
    → length ss ≡ length ls
    → rs ≡ take k (entries (offset_of start ls) (drop start ls) (drop start ss))
    → read_records files log_path rs ≡ some (take k (drop start ls))
window files log_path ls start k [] ss e o paired h =
    let ds = drop start ls in
    let same : length (take k (entries (offset_of start ls) ds (drop start ss))) ≡ 0 =
      ap length (sym h) in
    let counted =
      length-entries (offset_of start ls) ds (drop start ss)
        (omega (arith, paired, length-drop start ls, length-drop start ss)) in
    ap some (
      sym (
        empty (take k ds) (
          omega (
            arith,
            same,
            counted,
            length-take k (entries (offset_of start ls) ds (drop start ss)),
            length-take k ds,
          ))))
window files log_path ls start k (r ∷ rs) ss e o paired h =
    let ds = drop start ls in
    let es = entries (offset_of start ls) ds (drop start ss) in
    let counted : length es ≡ length ds =
      length-entries (offset_of start ls) ds (drop start ss)
        (omega (arith, paired, length-drop start ls, length-drop start ss)) in
    let n : length (r ∷ rs) ≡ min k (length ds) =
      ap length h ∙ length-take k es ∙ ap (min k) counted in
    ap (λ b. from_offset b (length (r ∷ rs)) (lookup log_path files))
      (head_offset k (offset_of start ls) ds (drop start ss) r rs h)
    ∙ ap (from_offset (offset_of start ls) (length (r ∷ rs))) e
    ∙ ap (λ bs. some (read_n (length (r ∷ rs)) bs)) (drop-unlines start ls)
    ∙ ap (λ m. some (read_n m (unlines ds))) n
    ∙ ap some (
        read_n-unlines (min k (length ds)) ds (All-drop OneLine start ls o) (omega arith)
        ∙ take_cut k ds)

module _ (files : Files) (log_path idx_path : Text) (base : ℕ) (ls : List Text) (ss : List ℕ)
    (h : Holds files log_path idx_path base ls ss) where
  pub open_at-Holds : open_at files idx_path ≡ some (reader base (entries 0 ls ss))
  unfolding open_at
  open_at-Holds = ap open_bytes h.index ∙ open_index-written base (entries 0 ls ss) h.small_base

  -- Reading lines of a segment whose index is coherent with its log gives those lines.
  pub read_lines_from_segment-Holds :
      (start count : ℕ)
      → read_lines_from_segment files log_path idx_path start count
        ≡ some (take count (drop start ls))
  unfolding read_lines_from_segment
  read_lines_from_segment-Holds start count = elim (Bool-cases (count == 0)) [
    | inl nothing ↦
        rw nothing (ap (λ k. some (take k (drop start ls))) (sym ((==_iff count 0).0 nothing)))
    | inr some_lines ↦
        rw (some_lines, open_at-Holds)
          (window files log_path ls start count _ ss h.log h.one_line h.paired (
            read_range-written base (entries 0 ls ss) start count h.fits
            ∙ ap (take count) (drop-entries start 0 ls ss h.paired)
            ∙ ap (λ o. take count (entries o (drop start ls) (drop start ss))) (omega arith)))
  ]

-- Without an index the same lines are read.
pub read_lines_from_segment-unindexed :
    (files : Files) (log_path idx_path : Text) (ls : List Text) (start count : ℕ)
    → lookup log_path files ≡ some (unlines ls)
    → lookup idx_path files ≡ none
    → All OneLine ls
    → All Stripped ls
    → read_lines_from_segment files log_path idx_path start count
      ≡ some (take count (drop start ls))
unfolding read_lines_from_segment open_at
read_lines_from_segment-unindexed files log_path idx_path ls start count e n o c =
    elim (Bool-cases (count == 0)) [
      | inl nothing ↦
          rw nothing (ap (λ k. some (take k (drop start ls))) (sym ((==_iff count 0).0 nothing)))
      | inr some_lines ↦
          rw (some_lines, n, e)
            (ap (λ xs. some (take count (drop start xs))) (buf_lines-unlines ls o c))
    ]

-- A segment whose lines are these, with an index coherent with its log or with none.
pub record Stored : Type 0 where
  pub segment : Segment
  pub base : ℕ
  pub ls : List Text
  pub ss : List ℕ

abbrev pub Unindexed : Files → Text → Text → List Text → Type 0
Unindexed files log_path idx_path ls =
    (lookup log_path files ≡ some (unlines ls))
    × (lookup idx_path files ≡ none)
    × All OneLine ls
    × All Stripped ls

abbrev pub StoredIn : Files → Stored → Type 0
StoredIn files p =
    (p.segment.line_count ≡ length p.ls)
    × (Holds files p.segment.log_path p.segment.idx_path p.base p.ls p.ss
        ⊎ Unindexed files p.segment.log_path p.segment.idx_path p.ls)

served :
    (files : Files) (log_path idx_path : Text) (base : ℕ) (ls : List Text) (ss : List ℕ)
    (start count : ℕ)
    → Holds files log_path idx_path base ls ss ⊎ Unindexed files log_path idx_path ls
    → read_lines_from_segment files log_path idx_path start count
      ≡ some (take count (drop start ls))
served files log_path idx_path base ls ss start count (inl h) =
    read_lines_from_segment-Holds files log_path idx_path base ls ss h start count
served files log_path idx_path base ls ss start count (inr (e, n, o, c)) =
    read_lines_from_segment-unindexed files log_path idx_path ls start count e n o c

pub open_at-Unindexed :
    (files : Files) (log_path idx_path : Text) (ls : List Text)
    → Unindexed files log_path idx_path ls
    → open_at files idx_path ≡ none
unfolding open_at
open_at-Unindexed files log_path idx_path ls (e, n, o, c) = ap open_bytes n

-- A stored segment serves every window of its lines.
pub read_lines_from_segment-StoredIn :
    (files : Files) (p : Stored) (start count : ℕ)
    → StoredIn files p
    → read_lines_from_segment files p.segment.log_path p.segment.idx_path start count
      ≡ some (take count (drop start p.ls))
read_lines_from_segment-StoredIn files p start count h = served files _ _ _ _ _ start count h.1
