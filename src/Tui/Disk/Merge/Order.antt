-- ===== src/Tui/Disk/Merge/Order.antt =====
-- The order of the merged view.
use agent_procs.Prelude.{
  ℕ, zero, suc, ◌+◌, ◌≡◌, refl, sym, ap, ◌∙◌, List, [], ◌∷◌, ◌++◌, map, length, length-append,
  length-take, take, All, arith, inl, inr,
}
use agent_procs.Logs.Files.{Files}
use agent_procs.Logs.Index.{IndexRecord}
use agent_procs.Logs.IndexLaws.{read_range-written}
use agent_procs.Tui.Buffer.{LineSource}
use agent_procs.Tui.Disk.Segment.{open_at}
use agent_procs.Tui.Disk.Segment.Laws.{Stored, StoredIn, open_at-Holds, open_at-Unindexed}
use agent_procs.Logs.Entries.{entries, length-entries}
use agent_procs.Tui.Disk.Spans.{lines_of, segments_of}
use agent_procs.Tui.Disk.Merge.{recorded, unrecorded, entries_by, stream_entries, place}

-- The lines of a stream from a number on.
abbrev pub numbered : LineSource → ℕ → ℕ → List (LineSource × ℕ)
numbered source line zero = []
numbered source line (suc n) = (source, line) ∷ numbered source (suc line) n

numbered-append :
    (source : LineSource) (line m n : ℕ)
    → numbered source line m ++ numbered source (line + m) n ≡ numbered source line (m + n)
numbered-append source line zero n =
    ap (λ l. numbered source l n) (omega arith) ∙ ap (numbered source line) (omega arith)
numbered-append source line (suc m) n =
    let index : line + suc m ≡ suc line + m = omega arith in
    let total : suc (m + n) ≡ suc m + n = omega arith in
    ap (λ k. (source, line) ∷ (numbered source (suc line) m ++ numbered source k n)) index
    ∙ ap (◌∷◌ (source, line)) (numbered-append source (suc line) m n)
    ∙ ap (numbered source line) total

pub map-append {ℓ κ} :
    {A : Type ℓ} {B : Type κ} (f : A → B) (xs ys : List A) → map f (xs ++ ys) ≡ map f xs ++ map f ys
map-append f [] ys = refl
map-append f (x ∷ xs) ys = ap (◌∷◌ (f x)) (map-append f xs ys)

place-recorded :
    (source : LineSource) (line : ℕ) (rs : List IndexRecord)
    → map place (recorded source line rs) ≡ numbered source line (length rs)
place-recorded source line [] = refl
place-recorded source line (r ∷ rs) = ap (◌∷◌ (source, line)) (place-recorded source (suc line) rs)

place-unrecorded :
    (source : LineSource) (line n : ℕ)
    → map place (unrecorded source line n) ≡ numbered source line n
place-unrecorded source line zero = refl
place-unrecorded source line (suc n) =
    ap (◌∷◌ (source, line)) (place-unrecorded source (suc line) n)

segment_places :
    (files : Files) (source : LineSource) (line : ℕ) (p : Stored)
    → StoredIn files p
    → map place (entries_by source line p.segment.line_count (open_at files p.segment.idx_path))
      ≡ numbered source line p.segment.line_count
segment_places files source line p (e, inl h) =
    let es = entries 0 p.ls p.ss in
    let n = p.segment.line_count in
    let all : length (take n es) ≡ n =
      omega (arith, e, length-take n es, length-entries 0 p.ls p.ss h.paired) in
    ap (λ o. map place (entries_by source line n o))
      (open_at-Holds files p.segment.log_path p.segment.idx_path p.base p.ls p.ss h)
    ∙ ap (λ rs. map place (recorded source line rs)) (read_range-written p.base es 0 n h.fits)
    ∙ place-recorded source line (take n es)
    ∙ ap (numbered source line) all
segment_places files source line p (e, inr h) =
    ap (λ o. map place (entries_by source line p.segment.line_count o))
      (open_at-Unindexed files p.segment.log_path p.segment.idx_path p.ls h)
    ∙ place-unrecorded source line p.segment.line_count

-- The entries of a stream are its lines in their order, once each.
pub stream_entries-numbered :
    (files : Files) (source : LineSource) (line : ℕ) (ps : List Stored)
    → All (StoredIn files) ps
    → map place (stream_entries files source line (segments_of ps))
      ≡ numbered source line (length (lines_of ps))
unfolding stream_entries
stream_entries-numbered files source line [] h = refl
stream_entries-numbered files source line (p ∷ ps) h =
    let n = p.segment.line_count in
    let here = entries_by source line n (open_at files p.segment.idx_path) in
    let more = stream_entries files source (line + n) (segments_of ps) in
    let total : n + length (lines_of ps) ≡ length (lines_of (p ∷ ps)) =
      omega (arith, h.0.0, length-append p.ls (lines_of ps)) in
    map-append place here more
    ∙ ap (λ l. l ++ map place more) (segment_places files source line p h.0)
    ∙ ap (λ l. numbered source line n ++ l) (stream_entries-numbered files source (line + n) ps h.1)
    ∙ numbered-append source line n (length (lines_of ps))
    ∙ ap (numbered source line) total

pub length-map {ℓ κ} :
    {A : Type ℓ} {B : Type κ} (f : A → B) (xs : List A) → length (map f xs) ≡ length xs
length-map f [] = refl
length-map f (x ∷ xs) = ap suc (length-map f xs)

length-numbered : (source : LineSource) (k n : ℕ) → length (numbered source k n) ≡ n
length-numbered source k zero = refl
length-numbered source k (suc n) = ap suc (length-numbered source (suc k) n)

pub length-stream_entries :
    (files : Files) (source : LineSource) (ps : List Stored)
    → All (StoredIn files) ps
    → length (stream_entries files source 0 (segments_of ps)) ≡ length (lines_of ps)
length-stream_entries files source ps h =
    let es = stream_entries files source 0 (segments_of ps) in
    sym (length-map place es)
    ∙ ap length (stream_entries-numbered files source 0 ps h)
    ∙ length-numbered source 0 (length (lines_of ps))
