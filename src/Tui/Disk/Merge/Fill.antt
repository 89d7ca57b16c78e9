-- ===== src/Tui/Disk/Merge/Fill.antt =====
-- The two loops that read the lines of a merged window put each line in its place.
use agent_procs.Prelude.{
  ℕ, zero, suc, ◌<◌, ◌≡◌, refl, sym, ap, ◌∙◌, Bool, true, List, [], ◌∷◌, ◌++◌, map, some, Text,
  if◌then◌else◌, length, length-append, append_assoc, get_elem?, select, enumerate, unwrap_or, All,
  All-map, arith, Bool-cases, inl, inr,
}
use agent_procs.Logs.Files.{Files}
use agent_procs.Tui.Buffer.{LineSource, stdout, stderr, is_stdout, is_stderr}
use agent_procs.Tui.Disk.Segment.{Segment}
use agent_procs.Tui.Disk.Segment.Laws.{Stored, StoredIn}
use agent_procs.Tui.Disk.Spans.{read_single_line_from, lines_of, segments_of}
use agent_procs.Tui.Disk.Lookup.{read_single_line_from-StoredIn}
use agent_procs.Tui.Disk.Merge.{set_at, blank, and_then, fill, needed_of, read_window}

-- The line that a place of the merged view names.
abbrev pub line_at : List Text → ℕ → Text
line_at ls n = unwrap_or (get_elem? ls n) []

abbrev pub fetch : List Text → List Text → LineSource × ℕ → LineSource × Text
fetch out err (stdout, n) = (stdout, line_at out n)
fetch out err (stderr, n) = (stderr, line_at err n)

abbrev pub Inside : List Text → List Text → LineSource × ℕ → Type 0
Inside out err (stdout, n) = n < length out
Inside out err (stderr, n) = n < length err

set_at-append :
    (pre : List (LineSource × Text)) (x y : LineSource × Text) (cur : List (LineSource × Text))
    → set_at (length pre) x (pre ++ y ∷ cur) ≡ pre ++ x ∷ cur
set_at-append [] x y cur = refl
set_at-append (z ∷ pre) x y cur = ap (◌∷◌ z) (set_at-append pre x y cur)

module _ (p : LineSource → Bool) (source : LineSource) (text : ℕ → Text) where
  abbrev overlay : List (LineSource × ℕ) → List (LineSource × Text) → List (LineSource × Text)
  overlay [] cur = []
  overlay (x ∷ w) [] = []
  overlay (x ∷ w) (y ∷ cur) = (if p x.0 then (source, text x.1) else y) ∷ overlay w cur

  abbrev Readable : Files → List Segment → LineSource × ℕ → Type 0
  Readable files ss x = p x.0 ≡ true → read_single_line_from files ss x.1 ≡ some (text x.1)

  fill-overlay :
      (files : Files) (ss : List Segment) (k : ℕ) (pre cur : List (LineSource × Text))
      (w : List (LineSource × ℕ))
      → length pre ≡ k
      → length cur ≡ length w
      → All (Readable files ss) w
      → fill files ss source (select (λ e. p e.1.0) (enumerate k w)) (pre ++ cur)
        ≡ some (pre ++ overlay w cur)
  unfolding fill
  fill-overlay files ss k pre [] [] e l h = refl
  fill-overlay files ss k pre [] (x ∷ w) e l h = absurd (omega (arith, l))
  fill-overlay files ss k pre (y ∷ cur) [] e l h = absurd (omega (arith, l))
  fill-overlay files ss k pre (y ∷ cur) (x ∷ w) e l h =
      let rest = select (λ e. p e.1.0) (enumerate (suc k) w) in
      elim (Bool-cases (p x.0)) [
        | inl mine ↦
            let new : LineSource × Text = (source, text x.1) in
            rw (mine, h.0 mine)
              (ap (λ i. fill files ss source rest (set_at i new (pre ++ y ∷ cur))) (sym e)
                ∙ ap (fill files ss source rest)
                    (set_at-append pre new y cur ∙ sym (append_assoc pre (new ∷ []) cur))
                ∙ fill-overlay files ss (suc k) (pre ++ new ∷ []) cur w
                    (omega (arith, e, length-append pre (new ∷ []))) (omega (arith, l)) h.1
                ∙ ap some (append_assoc pre (new ∷ []) (overlay w cur)))
        | inr other ↦ rw other (
            ap (fill files ss source rest) (sym (append_assoc pre (y ∷ []) cur))
            ∙ fill-overlay files ss (suc k) (pre ++ y ∷ []) cur w
                (omega (arith, e, length-append pre (y ∷ []))) (omega (arith, l)) h.1
            ∙ ap some (append_assoc pre (y ∷ []) (overlay w cur)))
      ]

  length-overlay :
      (w : List (LineSource × ℕ)) (cur : List (LineSource × Text))
      → length cur ≡ length w
      → length (overlay w cur) ≡ length w
  length-overlay [] cur l = refl
  length-overlay (x ∷ w) [] l = l
  length-overlay (x ∷ w) (y ∷ cur) l = omega (arith, length-overlay w cur (omega (arith, l)))

length-blank : (n : ℕ) → length (blank n) ≡ n
length-blank zero = refl
length-blank (suc n) = ap suc (length-blank n)

both_overlays :
    (out err : List Text) (w : List (LineSource × ℕ))
    → overlay is_stderr stderr
        (line_at err)
        w
        (overlay is_stdout stdout (line_at out) w (blank (length w)))
      ≡ map (fetch out err) w
both_overlays out err [] = refl
both_overlays out err ((stdout, n) ∷ w) = ap (◌∷◌ (stdout, line_at out n)) (both_overlays out err w)
both_overlays out err ((stderr, n) ∷ w) = ap (◌∷◌ (stderr, line_at err n)) (both_overlays out err w)

get_elem-line_at : (ls : List Text) (n : ℕ) → n < length ls → get_elem? ls n ≡ some (line_at ls n)
get_elem-line_at [] n h = absurd (omega (arith, h))
get_elem-line_at (l ∷ ls) zero h = refl
get_elem-line_at (l ∷ ls) (suc n) h = get_elem-line_at ls n (omega (arith, h))

module _ (files : Files) (ps qs : List Stored) (hp : All (StoredIn files) ps)
    (hq : All (StoredIn files) qs) where
  stdout-Readable :
      (x : LineSource × ℕ)
      → Inside (lines_of ps) (lines_of qs) x
      → Readable is_stdout stdout (line_at (lines_of ps)) files (segments_of ps) x
  stdout-Readable (stdout, n) i e =
      read_single_line_from-StoredIn files ps n hp ∙ get_elem-line_at (lines_of ps) n i
  stdout-Readable (stderr, n) i e = absurd (cc)

  stderr-Readable :
      (x : LineSource × ℕ)
      → Inside (lines_of ps) (lines_of qs) x
      → Readable is_stderr stderr (line_at (lines_of qs)) files (segments_of qs) x
  stderr-Readable (stdout, n) i e = absurd (cc)
  stderr-Readable (stderr, n) i e =
      read_single_line_from-StoredIn files qs n hq ∙ get_elem-line_at (lines_of qs) n i

  -- The lines of a merged window are read, each at its place.
  pub read_window-fetch :
      (w : List (LineSource × ℕ))
      → All (Inside (lines_of ps) (lines_of qs)) w
      → read_window files (segments_of ps) (segments_of qs) w
        ≡ some (map (fetch (lines_of ps) (lines_of qs)) w)
  unfolding read_window
  read_window-fetch w h =
      let out = lines_of ps in
      let err = lines_of qs in
      let first = overlay is_stdout stdout (line_at out) w (blank (length w)) in
      ap (λ o. and_then o (fill files (segments_of qs) stderr (needed_of is_stderr w)))
        (fill-overlay is_stdout stdout (line_at out) files (segments_of ps) 0 [] (blank (length w))
          w refl (length-blank (length w)) (All-map _ _ w stdout-Readable h))
      ∙ fill-overlay is_stderr stderr (line_at err) files (segments_of qs) 0 [] first w refl
          (length-overlay is_stdout stdout (line_at out) w (blank (length w))
            (length-blank (length w)))
          (All-map _ _ w stderr-Readable h)
      ∙ ap some (both_overlays out err w)
