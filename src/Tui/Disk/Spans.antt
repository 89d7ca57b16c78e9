-- ===== src/Tui/Disk/Spans.antt =====
-- Windows over several segments: `read_lines_from_segments` and `read_single_line_from`.
use agent_procs.Prelude.{
  ℕ, ◌+◌, ◌-◌, ◌≤◌, ◌≡◌, sym, ap, ◌∙◌, true, ◌||◌, List, [], ◌∷◌, ◌++◌, map, Option, none, some,
  Text, leb, ltb, if◌then◌else◌, length, length-drop, length-take, take, drop, drop-append,
  take-append, take_same, empty, concat, min, max, All, arith, Bool-cases, inl, inr,
}
use agent_procs.Logs.Files.{Files}
use agent_procs.Tui.Disk.Segment.{Segment, read_lines_from_segment}
use agent_procs.Tui.Disk.Segment.Laws.{Stored, StoredIn, read_lines_from_segment-StoredIn}

-- `result.extend(lines)`, after the error of a read is returned.
abbrev pub extend : Option (List Text) → Option (List Text) → Option (List Text)
extend none rest = none
extend (some lines) none = none
extend (some lines) (some rest) = some (lines ++ rest)

unfoldable pub read_spans : Files → ℕ → ℕ → ℕ → List Segment → Option (List Text)
read_spans files start count cumulative [] = some []
read_spans files start count cumulative (seg ∷ segs) =
    let seg_end = cumulative + seg.line_count in
    let window_end = start + count in
    let rest = read_spans files start count seg_end segs in
    let read_start = max start cumulative - cumulative in
    let read_end = min window_end seg_end - cumulative in
    if leb seg_end start || leb window_end cumulative
    then rest
    else extend
        (read_lines_from_segment files seg.log_path seg.idx_path read_start (read_end - read_start))
        rest

unfoldable pub read_lines_from_segments : Files → List Segment → ℕ → ℕ → Option (List Text)
unfolding read_spans
read_lines_from_segments files segments start count = read_spans files start count 0 segments

abbrev pub first_line : Option (List Text) → Option Text
first_line none = none
first_line (some []) = none
first_line (some (l ∷ ls)) = some l

unfoldable pub single_from : Files → ℕ → ℕ → List Segment → Option Text
single_from files cumulative absolute_line [] = none
single_from files cumulative absolute_line (seg ∷ segs) =
    let rest = single_from files (cumulative + seg.line_count) absolute_line segs in
    if ltb absolute_line (cumulative + seg.line_count)
    then first_line
        (read_lines_from_segment files seg.log_path seg.idx_path (absolute_line - cumulative) 1)
    else rest

-- `none` is an I/O error, a line that is missing in its segment, or a line out of range.
unfoldable pub read_single_line_from : Files → List Segment → ℕ → Option Text
unfolding single_from
read_single_line_from files segments absolute_line = single_from files 0 absolute_line segments

abbrev pub lines_of : List Stored → List Text
lines_of ps = concat (map (λ p. p.ls) ps)

abbrev pub segments_of : List Stored → List Segment
segments_of = map (λ p. p.segment)

-- The window from `a` to `b` of two lists put together.
window-append {ℓ} :
    {A : Type ℓ} (a b : ℕ) (xs ys : List A)
    → a ≤ b
    → take (b - a) (drop a (xs ++ ys))
      ≡ take (min b (length xs) - a) (drop a xs)
        ++ take (b - length xs - (a - length xs)) (drop (a - length xs) ys)
window-append a b xs ys h =
    ap (take (b - a)) (drop-append a xs ys)
    ∙ take-append (b - a) (drop a xs) (drop (a - length xs) ys)
    ∙ ap (λ l. l ++ take (b - a - length (drop a xs)) (drop (a - length xs) ys))
        (take_same (b - a) (min b (length xs) - a) (drop a xs) (omega (arith, length-drop a xs)))
    ∙ ap (λ k. take (min b (length xs) - a) (drop a xs) ++ take k (drop (a - length xs) ys))
        (omega (arith, length-drop a xs, h))

module _ (files : Files) (start count : ℕ) where
  abbrev from : ℕ → ℕ
  from cumulative = start - cumulative

  abbrev to : ℕ → ℕ
  to cumulative = start + count - cumulative

  abbrev rest_of : ℕ → List Text → List Text
  rest_of cumulative ls = take (to cumulative - from cumulative) (drop (from cumulative) ls)

  part_of : ℕ → List Text → List Text
  part_of cumulative ls =
      take (min (to cumulative) (length ls) - from cumulative) (drop (from cumulative) ls)

  rest_of-append :
      (cumulative n : ℕ) (ls more : List Text)
      → n ≡ length ls
      → rest_of cumulative (ls ++ more) ≡ part_of cumulative ls ++ rest_of (cumulative + n) more
  unfolding part_of
  rest_of-append cumulative n ls more e =
      window-append (from cumulative) (to cumulative) ls more (omega arith)
      ∙ ap (λ k. part_of cumulative ls ++ take k (drop (from cumulative - length ls) more))
          (omega (arith, e))
      ∙ ap
          (λ k.
            part_of cumulative ls
            ++ take (to (cumulative + n) - from (cumulative + n)) (drop k more))
          (omega (arith, e))

  nothing_read :
      (cumulative n : ℕ) (ls : List Text)
      → n ≡ length ls
      → (leb (cumulative + n) start || leb (start + count) cumulative) ≡ true
      → part_of cumulative ls ≡ []
  unfolding part_of
  nothing_read cumulative n ls e t =
      let len =
        length-take (min (to cumulative) (length ls) - from cumulative)
          (drop (from cumulative) ls) in
      empty _ (ground (arith, len, e, t, length-drop (from cumulative) ls))

  part_read :
      (cumulative n : ℕ) (ls : List Text)
      → n ≡ length ls
      → take
          (min (start + count) (cumulative + n) - cumulative - (max start cumulative - cumulative))
          (drop (max start cumulative - cumulative) ls)
        ≡ part_of cumulative ls
  unfolding part_of
  part_read cumulative n ls e =
      ap (λ k. take k (drop (max start cumulative - cumulative) ls)) (omega (arith, e))
      ∙ ap (λ k. take (min (to cumulative) (length ls) - from cumulative) (drop k ls)) (omega arith)

  read_spans-StoredIn :
      (cumulative : ℕ) (ps : List Stored)
      → All (StoredIn files) ps
      → read_spans files start count cumulative (segments_of ps)
        ≡ some (rest_of cumulative (lines_of ps))
  unfolding read_spans
  read_spans-StoredIn cumulative [] h = ap some (
      sym (
        empty (rest_of cumulative []) (
          omega (
            arith,
            length-take (to cumulative - from cumulative) (drop {A = Text} (from cumulative) []),
            length-drop {A = Text} (from cumulative) [],
          ))))
  read_spans-StoredIn cumulative (p ∷ ps) h =
      let n = p.segment.line_count in
      let more = lines_of ps in
      let whole = rest_of-append cumulative n p.ls more h.0.0 in
      let later = read_spans-StoredIn (cumulative + n) ps h.1 in
      elim (Bool-cases (leb (cumulative + n) start || leb (start + count) cumulative)) [
        | inl skip ↦ rw skip (
            later
            ∙ ap (λ l. some (l ++ rest_of (cumulative + n) more))
                (sym (nothing_read cumulative n p.ls h.0.0 skip))
            ∙ ap some (sym whole))
        | inr read ↦
            rw
              (
                read,
                later,
                read_lines_from_segment-StoredIn files p (max start cumulative - cumulative) _ h.0,
              )
              (ap (λ l. some (l ++ rest_of (cumulative + n) more))
                  (part_read cumulative n p.ls h.0.0)
                ∙ ap some (sym whole))
      ]

-- The lines of stored segments are read as if they were one list: a window that spans segments is
-- the window of their lines, oldest first.
pub read_lines_from_segments-StoredIn :
    (files : Files) (ps : List Stored) (start count : ℕ)
    → All (StoredIn files) ps
    → read_lines_from_segments files (segments_of ps) start count
      ≡ some (take count (drop start (lines_of ps)))
unfolding read_lines_from_segments
read_lines_from_segments-StoredIn files ps start count h =
    read_spans-StoredIn files start count 0 ps h
    ∙ ap (λ k. some (take k (drop (start - 0) (lines_of ps)))) (omega arith)
    ∙ ap (λ k. some (take count (drop k (lines_of ps)))) (omega arith)
