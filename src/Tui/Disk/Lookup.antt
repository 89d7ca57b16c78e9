-- ===== src/Tui/Disk/Lookup.antt =====
-- A single line of stored segments is the line of that number in all their lines.
use agent_procs.Prelude.{
  ℕ, zero, suc, ◌+◌, ◌-◌, ◌≤◌, ◌≡◌, refl, sym, ap, ◌∙◌, true, false, List, [], ◌∷◌, some, Text, ltb,
  length, take, drop, get_elem?, get_elem-append, All, arith, Bool-cases, inl, inr,
}
use agent_procs.Logs.Files.{Files}
use agent_procs.Tui.Disk.Segment.Laws.{Stored, StoredIn, read_lines_from_segment-StoredIn}
use agent_procs.Tui.Disk.Spans.{
  read_single_line_from, single_from, first_line, lines_of, segments_of,
}

first_line-take : (ls : List Text) (k : ℕ) → first_line (some (take 1 (drop k ls))) ≡ get_elem? ls k
first_line-take [] zero = refl
first_line-take [] (suc k) = refl
first_line-take (l ∷ ls) zero = refl
first_line-take (l ∷ ls) (suc k) = first_line-take ls k

module _ (files : Files) (line : ℕ) where
  single_from-StoredIn :
      (cumulative : ℕ) (ps : List Stored)
      → All (StoredIn files) ps
      → cumulative ≤ line
      → single_from files cumulative line (segments_of ps)
        ≡ get_elem? (lines_of ps) (line - cumulative)
  unfolding single_from
  single_from-StoredIn cumulative [] h c = refl
  single_from-StoredIn cumulative (p ∷ ps) h c =
      let n = p.segment.line_count in
      let here =
        ap first_line (read_lines_from_segment-StoredIn files p (line - cumulative) 1 h.0)
        ∙ first_line-take p.ls (line - cumulative) in
      let split = get_elem-append p.ls (lines_of ps) (line - cumulative) in
      elim (Bool-cases (ltb line (cumulative + n))) [
        | inl inside ↦
            let first : ltb (line - cumulative) (length p.ls) ≡ true =
              ground (arith, inside, h.0.0, c) in
            rw inside (here ∙ sym (split ∙ rw first refl))
        | inr beyond ↦
            let index : line - (cumulative + n) ≡ line - cumulative - length p.ls =
              omega (arith, h.0.0) in
            let later : ltb (line - cumulative) (length p.ls) ≡ false =
              ground (arith, beyond, h.0.0, c) in
            rw beyond (
              single_from-StoredIn (cumulative + n) ps h.1 (ground (arith, beyond))
              ∙ ap (get_elem? (lines_of ps)) index
              ∙ sym (split ∙ rw later refl))
      ]

-- Reading one line by its number gives that line of all the lines of the stored segments, oldest
-- segment first, and an error exactly when there is no such line.
pub read_single_line_from-StoredIn :
    (files : Files) (ps : List Stored) (line : ℕ)
    → All (StoredIn files) ps
    → read_single_line_from files (segments_of ps) line ≡ get_elem? (lines_of ps) line
unfolding read_single_line_from
read_single_line_from-StoredIn files ps line h =
    single_from-StoredIn files line 0 ps h (omega arith)
    ∙ ap (get_elem? (lines_of ps)) (omega arith)
