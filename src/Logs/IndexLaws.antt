-- ===== src/Logs/IndexLaws.antt =====
-- What the index writer stores, the reader finds again.
use agent_procs.Prelude.{
  ℕ, zero, suc, ◌+◌, ◌-◌, ◌*◌, ◌/◌, ◌^◌, ◌≤◌, ◌<◌, ◌≡◌, refl, sym, ap, ◌∙◌, min, List, [], ◌∷◌,
  ◌++◌, some, arith, All, length, take, drop, get_elem?, drop_all, take_all, length-drop, ◌==◌,
  ==_iff, inl, inr, length-append, drop_front, All-drop, take-append, Bool-cases, false,
  text_eq_refl, ltb, leb, append_assoc, append-nil, take_cut,
}
use mathlib.Core.Option.{some-injective}
use agent_procs.Logs.Index.{
  IndexRecord, IndexReader, to_le_bytes, from_le_bytes, create, encode, append, open_index, decode,
  read_record, decode_chunks, read_range, magic,
}

-- An integer of `w` bytes survives being written and read.
pub from_le_bytes-to_le_bytes : (w v : ℕ) → v < 256 ^ w → from_le_bytes (to_le_bytes w v) ≡ v
unfolding from_le_bytes to_le_bytes
from_le_bytes-to_le_bytes zero v h = omega (arith, h)
from_le_bytes-to_le_bytes (suc w) v h =
    omega (arith, from_le_bytes-to_le_bytes w (v / 256) (omega (arith, h)))

length-to_le_bytes : (w v : ℕ) → length (to_le_bytes w v) ≡ w
unfolding to_le_bytes
length-to_le_bytes zero v = refl
length-to_le_bytes (suc w) v = ap suc (length-to_le_bytes w (v / 256))

-- The fields are 64-bit integers.
abbrev pub Fits : IndexRecord → Type 0
Fits r = (r.byte_offset < 2 ^ 64) × (r.seq < 2 ^ 64)

abbrev the_record : ℕ → ℕ → IndexRecord
the_record offset seq = record { byte_offset = offset; seq = seq }

decode-encode : (r : IndexRecord) → Fits r → decode (encode r) ≡ r
unfolding decode encode to_le_bytes
decode-encode r h =
    let offset = from_le_bytes-to_le_bytes 8 r.byte_offset h.0 in
    let seq = from_le_bytes-to_le_bytes 8 r.seq h.1 in
    ap (λ x. the_record x (from_le_bytes (to_le_bytes 8 r.seq))) offset
    ∙ ap (the_record r.byte_offset) seq

-- The file after `create` and one `append` for each record.
abbrev pub written : List ℕ → List IndexRecord → List ℕ
written file [] = file
written file (r ∷ rs) = written (append file r) rs

abbrev body : List IndexRecord → List ℕ
body [] = []
body (r ∷ rs) = encode r ++ body rs

append_lem : (file : List ℕ) (r : IndexRecord) → append file r ≡ file ++ encode r
unfolding append
append_lem file r = refl

written-body : (file : List ℕ) (rs : List IndexRecord) → written file rs ≡ file ++ body rs
written-body file [] = sym (append-nil file)
written-body file (r ∷ rs) =
    written-body (append file r) rs
    ∙ ap (λ f. f ++ body rs) (append_lem file r)
    ∙ append_assoc file (encode r) (body rs)

length-encode : (r : IndexRecord) → length (encode r) ≡ 16
unfolding encode to_le_bytes
length-encode r = refl

length-body : (rs : List IndexRecord) → length (body rs) ≡ 16 * length rs
length-body [] = refl
length-body (r ∷ rs) =
    omega (arith, length-append (encode r) (body rs), length-encode r, length-body rs)

body-at :
    (rs : List IndexRecord) (i : ℕ) (r : IndexRecord)
    → get_elem? rs i ≡ some r
    → (rest : List ℕ) × (drop (i * 16) (body rs) ≡ encode r ++ rest)
body-at [] i r e = absurd (cc)
body-at (q ∷ rs) zero r e = (body rs, ap (λ x. encode x ++ body rs) (some-injective q r e))
body-at (q ∷ rs) (suc i) r e =
    let (rest, h) = body-at rs i r e in
    (
      rest,
      ap (λ n. drop n (encode q ++ body rs)) (omega (arith, length-encode q))
          ∙ drop_front (i * 16) (encode q) (body rs)
          ∙ h,
    )

length-create : (s : ℕ) → length (create s) ≡ 16
unfolding create to_le_bytes
length-create s = refl

take-encode : (r : IndexRecord) (rest : List ℕ) → take 16 (encode r ++ rest) ≡ encode r
unfolding encode to_le_bytes
take-encode r rest = refl

get-less :
    (rs : List IndexRecord) (i : ℕ) (r : IndexRecord) → get_elem? rs i ≡ some r → i < length rs
get-less [] i r e = absurd (cc)
get-less (q ∷ rs) zero r e = omega arith
get-less (q ∷ rs) (suc i) r e = omega (arith, get-less rs i r e)

abbrev pub reader : ℕ → List IndexRecord → IndexReader
reader s rs = record { file = written (create s) rs; line_count = length rs; seq_base = s }

record_bytes :
    (s : ℕ) (rs : List IndexRecord) (i : ℕ) (r : IndexRecord)
    → get_elem? rs i ≡ some r
    → take 16 (drop (16 + i * 16) (written (create s) rs)) ≡ encode r
record_bytes s rs i r e =
    let (rest, h) = body-at rs i r e in
    ap (λ f. take 16 (drop (16 + i * 16) f)) (written-body (create s) rs)
    ∙ ap (λ n. take 16 (drop n (create s ++ body rs))) (omega (arith, length-create s))
    ∙ ap (take 16) (drop_front (i * 16) (create s) (body rs) ∙ h)
    ∙ take-encode r rest

-- The record at a line of a written index is read back, if its fields fit in 64 bits.
pub read_record-written :
    (s : ℕ) (rs : List IndexRecord) (i : ℕ) (r : IndexRecord)
    → get_elem? rs i ≡ some r
    → Fits r
    → read_record (reader s rs) i ≡ some r
unfolding read_record
read_record-written s rs i r e h =
    let inside : leb (length rs) i ≡ false = ground (arith, get-less rs i r e) in
    rw (inside, record_bytes s rs i r e) (ap some (decode-encode r h))

abbrev opened : List ℕ → ℕ → ℕ → IndexReader
opened file n s = record { file = file; line_count = n; seq_base = s }

open-written :
    (s : ℕ) (bs : List ℕ) (n : ℕ)
    → length bs ≡ 16 * n
    → s < 2 ^ 64
    → open_index (create s ++ bs)
      ≡ some (record { file = create s ++ bs; line_count = n; seq_base = s })
unfolding open_index create to_le_bytes
open-written s bs n e h =
    let long : ltb (length (create s ++ bs)) 16 ≡ false =
      ground (arith, length-append (create s) bs, length-create s) in
    let lines : (length (create s ++ bs) - 16) / 16 ≡ n =
      omega (arith, e, length-append (create s) bs, length-create s) in
    rw (long, text_eq_refl magic)
      (ap (λ x. some (opened (create s ++ bs) x (from_le_bytes (to_le_bytes 8 s)))) lines
        ∙ ap (λ x. some (opened (create s ++ bs) n x)) (from_le_bytes-to_le_bytes 8 s h))

-- A written index is opened with its base and with as many lines as it has records.
pub open_index-written :
    (s : ℕ) (rs : List IndexRecord)
    → s < 2 ^ 64
    → open_index (written (create s) rs) ≡ some (reader s rs)
open_index-written s rs h =
    rw (written-body (create s) rs) (open-written s (body rs) (length rs) (length-body rs) h)

drop-body : (k : ℕ) (rs : List IndexRecord) → drop (k * 16) (body rs) ≡ body (drop k rs)
drop-body zero rs = refl
drop-body (suc k) [] = drop_all (suc k * 16) [] (omega arith)
drop-body (suc k) (r ∷ rs) =
    ap (λ n. drop n (encode r ++ body rs)) (omega (arith, length-encode r))
    ∙ drop_front (k * 16) (encode r) (body rs)
    ∙ drop-body k rs

take-front :
    (n : ℕ) (r : IndexRecord) (bs : List ℕ) → take (16 + n) (encode r ++ bs) ≡ encode r ++ take n bs
take-front n r bs =
    take-append (16 + n) (encode r) bs
    ∙ ap (λ xs. xs ++ take (16 + n - length (encode r)) bs)
        (take_all (16 + n) (encode r) (omega (arith, length-encode r)))
    ∙ ap (λ k. encode r ++ take k bs) (omega (arith, length-encode r))

drop-encode : (r : IndexRecord) (rest : List ℕ) → drop 16 (encode r ++ rest) ≡ rest
unfolding encode to_le_bytes
drop-encode r rest = refl

chunks-body :
    (n : ℕ) (rs : List IndexRecord)
    → All Fits rs
    → n ≤ length rs
    → decode_chunks n (take (n * 16) (body rs)) ≡ take n rs
unfolding decode_chunks
chunks-body zero rs f h = refl
chunks-body (suc n) [] f h = absurd (omega (arith, h))
chunks-body (suc n) (r ∷ rs) f h =
    let front : take (suc n * 16) (body (r ∷ rs)) ≡ encode r ++ take (n * 16) (body rs) =
      ap (λ k. take k (encode r ++ body rs)) (omega arith) ∙ take-front (n * 16) r (body rs) in
    ap (decode_chunks (suc n)) front
    ∙ ap (λ b. decode b ∷ decode_chunks n (drop 16 (encode r ++ take (n * 16) (body rs))))
        (take-encode r _)
    ∙ ap (λ q. q ∷ decode_chunks n (drop 16 (encode r ++ take (n * 16) (body rs))))
        (decode-encode r f.0)
    ∙ ap (λ b. r ∷ decode_chunks n b) (drop-encode r _)
    ∙ ap (◌∷◌ r) (chunks-body n rs f.1 (omega (arith, h)))

chunks-written :
    (s : ℕ) (rs : List IndexRecord) (start n : ℕ)
    → All Fits rs
    → n ≤ length (drop start rs)
    → decode_chunks n (take (n * 16) (drop (16 + start * 16) (written (create s) rs)))
      ≡ take n (drop start rs)
chunks-written s rs start n f h =
    ap (λ x. decode_chunks n (take (n * 16) (drop (16 + start * 16) x)))
      (written-body (create s) rs)
    ∙ ap (λ k. decode_chunks n (take (n * 16) (drop k (create s ++ body rs))))
        (omega (arith, length-create s))
    ∙ ap (λ x. decode_chunks n (take (n * 16) x))
        (drop_front (start * 16) (create s) (body rs) ∙ drop-body start rs)
    ∙ chunks-body n (drop start rs) (All-drop Fits start rs f) h

-- Reading a range of lines of a written index gives the records of those lines, cut at the end of
-- the file, if their fields fit in 64 bits.
pub read_range-written :
    (s : ℕ) (rs : List IndexRecord) (start count : ℕ)
    → All Fits rs
    → read_range (reader s rs) start count ≡ take count (drop start rs)
unfolding read_range
read_range-written s rs start count f =
    let n = min (start + count) (length rs) - start in
    let ds = drop start rs in
    let cut : take n ds ≡ take count ds =
      ap (λ k. take k ds) (omega (arith, length-drop start rs)) ∙ take_cut count ds in
    elim (Bool-cases (n == 0)) [
      | inl empty ↦ rw empty (ap (λ k. take k ds) (sym ((==_iff n 0).0 empty)) ∙ cut)
      | inr some_lines ↦
          rw some_lines (chunks-written s rs start n f (omega (arith, length-drop start rs)) ∙ cut)
    ]
