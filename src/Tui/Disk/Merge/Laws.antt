-- ===== src/Tui/Disk/Merge/Laws.antt =====
-- The merged view has every line of both streams, in the order of their sequence numbers.
use agent_procs.Prelude.{
  ℕ, zero, suc, ◌+◌, ◌<◌, ◌≡◌, refl, sym, ap, ◌∙◌, Bool, true, false, List, [], ◌∷◌, ◌++◌, map,
  length, length-append, select, All, All-append, All-map, arith, Bool-cases, inl, inr, append-nil,
  subst,
}
use agent_procs.Prelude.Sort.{sort_ord}
use agent_procs.Logs.Files.{Files}
use agent_procs.Tui.Buffer.{LineSource, stdout, stderr, is_stdout, is_stderr}
use agent_procs.Tui.Disk.Segment.Laws.{Stored, StoredIn}
use agent_procs.Tui.Disk.Spans.{lines_of, segments_of}
use agent_procs.Tui.Disk.Merge.{MergeEntry, stream_entries, by_seq, merged_entries, place, merge}
use agent_procs.Tui.Disk.Merge.Sorted.{
  Ascending, Rising, All-sort, sort-Ascending, select-sort, length-sort,
}
use agent_procs.Tui.Disk.Merge.Order.{numbered, stream_entries-numbered, length-stream_entries}
use agent_procs.Tui.Disk.Merge.Fill.{Inside}

-- An entry of this stream, of one of its first `n` lines.
abbrev Of : LineSource → ℕ → MergeEntry → Type 0
Of source n e = (e.source ≡ source) × (e.line < n)

numbered-Of :
    (source : LineSource) (k n : ℕ) (xs : List MergeEntry)
    → map place xs ≡ numbered source k n
    → All (Of source (k + n)) xs
numbered-Of source k n [] e = tt
numbered-Of source k zero (x ∷ xs) e = absurd (cc)
numbered-Of source k (suc n) (x ∷ xs) e =
    let same : x.source ≡ source = cc in
    let line : x.line ≡ k = cc in
    let rest : map place xs ≡ numbered source (suc k) n = cc in
    let less : x.line < k + suc n = omega (arith, line) in
    (
      (same, less),
      All-map _ _ xs (λ y h. (h.0, omega (arith, h.1))) (numbered-Of source (suc k) n xs rest),
    )

module _ (p : MergeEntry → Bool) where
  Ascending-Rising : (xs : List MergeEntry) → Ascending xs → Rising p xs
  Ascending-Rising [] h = tt
  Ascending-Rising (a ∷ xs) h = (λ mine. All-map _ _ xs (λ b le t. le) h.0, Ascending-Rising xs h.1)

  abbrev Skipped : MergeEntry → Type 0
  Skipped b = p b ≡ false

  append-Rising_first :
      (xs ys : List MergeEntry) → Ascending xs → All Skipped ys → Rising p (xs ++ ys)
  append-Rising_first [] [] h s = tt
  append-Rising_first [] (b ∷ ys) h s =
      (λ mine. absurd (ground (arith, mine, s.0)), append-Rising_first [] ys tt s.1)
  append-Rising_first (a ∷ xs) ys h s = (
    λ mine.
        All-append _ xs ys (All-map _ _ xs (λ b le t. le) h.0)
          (All-map _ _ ys (λ b no yes. absurd (ground (arith, no, yes))) s),
    append-Rising_first xs ys h.1 s,
  )

  append-Rising_second :
      (xs ys : List MergeEntry) → All Skipped xs → Ascending ys → Rising p (xs ++ ys)
  append-Rising_second [] ys s h = Ascending-Rising ys h
  append-Rising_second (a ∷ xs) ys s h =
      (λ mine. absurd (ground (arith, mine, s.0)), append-Rising_second xs ys s.1 h)

  select-All : (xs : List MergeEntry) → All (λ b. p b ≡ true) xs → select p xs ≡ xs
  select-All [] h = refl
  select-All (a ∷ xs) h = rw (h.0) (ap (◌∷◌ a) (select-All xs h.1))

  select_nothing : (xs : List MergeEntry) → All Skipped xs → select p xs ≡ []
  select_nothing [] h = refl
  select_nothing (a ∷ xs) h = rw (h.0) (select_nothing xs h.1)

  select-append : (xs ys : List MergeEntry) → select p (xs ++ ys) ≡ select p xs ++ select p ys
  select-append [] ys = refl
  select-append (a ∷ xs) ys = elim (Bool-cases (p a)) [
    | inl mine ↦ rw mine (ap (◌∷◌ a) (select-append xs ys))
    | inr other ↦ rw other (select-append xs ys)
  ]

map-select :
    (q : LineSource × ℕ → Bool) (xs : List MergeEntry)
    → select q (map place xs) ≡ map place (select (λ e. q (place e)) xs)
map-select q [] = refl
map-select q (a ∷ xs) = elim (Bool-cases (q (place a))) [
  | inl mine ↦ rw mine (ap (◌∷◌ (place a)) (map-select q xs))
  | inr other ↦ rw other (map-select q xs)
]

module _ (files : Files) (ps qs : List Stored) (hp : All (StoredIn files) ps)
    (hq : All (StoredIn files) qs) where
  abbrev out : List MergeEntry
  out = stream_entries files stdout 0 (segments_of ps)

  abbrev err : List MergeEntry
  err = stream_entries files stderr 0 (segments_of qs)

  out-Of : All (Of stdout (0 + length (lines_of ps))) out
  out-Of = numbered-Of stdout 0 _ out (stream_entries-numbered files stdout 0 ps hp)

  err-Of : All (Of stderr (0 + length (lines_of qs))) err
  err-Of = numbered-Of stderr 0 _ err (stream_entries-numbered files stderr 0 qs hq)

  -- The merged view has as many lines as both streams together.
  pub length-merged_entries :
      length (merged_entries files (segments_of ps) (segments_of qs))
      ≡ length (lines_of ps) + length (lines_of qs)
  unfolding merged_entries
  length-merged_entries =
      let sorted = length-sort (out ++ err) in
      omega (
        arith,
        sorted,
        length-append out err,
        length-stream_entries files stdout ps hp,
        length-stream_entries files stderr qs hq,
      )

  abbrev Within : MergeEntry → Type 0
  Within e = Inside (lines_of ps) (lines_of qs) (place e)

  All-place :
      (xs : List MergeEntry)
      → All Within xs
      → All (Inside (lines_of ps) (lines_of qs)) (map place xs)
  All-place [] h = tt
  All-place (x ∷ xs) h = (h.0, All-place xs h.1)

  out-Within : (e : MergeEntry) → Of stdout (0 + length (lines_of ps)) e → Within e
  out-Within e h =
      let less : e.line < length (lines_of ps) = omega (arith, h.1) in
      subst (λ s. Inside (lines_of ps) (lines_of qs) (s, e.line)) (sym h.0) less

  err-Within : (e : MergeEntry) → Of stderr (0 + length (lines_of qs)) e → Within e
  err-Within e h =
      let less : e.line < length (lines_of qs) = omega (arith, h.1) in
      subst (λ s. Inside (lines_of ps) (lines_of qs) (s, e.line)) (sym h.0) less

  -- Each entry of the merged view names a line of its stream.
  pub merge-Inside :
      All (Inside (lines_of ps) (lines_of qs)) (merge files (segments_of ps) (segments_of qs))
  unfolding merge merged_entries
  merge-Inside = All-place (sort_ord by_seq (out ++ err)) (
      All-sort Within (out ++ err) (
        All-append Within out err (All-map _ Within out out-Within out-Of)
          (All-map _ Within err err-Within err-Of)))

  -- Where the sequence numbers of each stream do not fall, the merged view is sorted by sequence
  -- number, and it shows every line of each stream once, in the stream's own order.
  pub merge-InOrder :
      Ascending out
      → Ascending err
      → Ascending (merged_entries files (segments_of ps) (segments_of qs))
        × (select (λ x. is_stdout x.0) (merge files (segments_of ps) (segments_of qs))
            ≡ numbered stdout 0 (length (lines_of ps)))
        × (select (λ x. is_stderr x.0) (merge files (segments_of ps) (segments_of qs))
            ≡ numbered stderr 0 (length (lines_of qs)))
  unfolding merge merged_entries
  merge-InOrder ho he = (
    sort-Ascending (out ++ err),
    map-select (λ x. is_stdout x.0) (sort_ord by_seq (out ++ err))
        ∙ ap (map place) (
            select-sort _ (out ++ err) (append-Rising_first _ out err ho err_skipped)
            ∙ select-append _ out err
            ∙ ap (λ l. l ++ select (λ e. is_stdout e.source) err) (select-All _ out out_picked)
            ∙ ap (λ l. out ++ l) (select_nothing _ err err_skipped)
            ∙ append-nil out)
        ∙ stream_entries-numbered files stdout 0 ps hp,
    map-select (λ x. is_stderr x.0) (sort_ord by_seq (out ++ err))
        ∙ ap (map place) (
            select-sort _ (out ++ err) (append-Rising_second _ out err out_skipped he)
            ∙ select-append _ out err
            ∙ ap (λ l. l ++ select (λ e. is_stderr e.source) err) (select_nothing _ out out_skipped)
            ∙ select-All _ err err_picked)
        ∙ stream_entries-numbered files stderr 0 qs hq,
  )
    where
      err_skipped : All (λ e. is_stdout e.source ≡ false) err
      err_skipped = All-map _ _ err (λ e h. ap is_stdout h.0) err-Of

      out_picked : All (λ e. is_stdout e.source ≡ true) out
      out_picked = All-map _ _ out (λ e h. ap is_stdout h.0) out-Of

      out_skipped : All (λ e. is_stderr e.source ≡ false) out
      out_skipped = All-map _ _ out (λ e h. ap is_stderr h.0) out-Of

      err_picked : All (λ e. is_stderr e.source ≡ true) err
      err_picked = All-map _ _ err (λ e h. ap is_stderr h.0) err-Of
