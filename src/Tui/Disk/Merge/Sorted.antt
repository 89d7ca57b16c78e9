-- ===== src/Tui/Disk/Merge/Sorted.antt =====
-- The stable sort by sequence number.
use agent_procs.Prelude.{
  ◌≤◌, ◌≡◌, refl, ap, ◌∙◌, Bool, true, false, List, [], ◌∷◌, if◌then◌else◌, leb, length, suc,
  select, All, All-map, arith, Bool-cases, inl, inr,
}
use agent_procs.Prelude.Sort.{sort_ord, insert_ord}
use agent_procs.Tui.Disk.Merge.{MergeEntry, by_seq}

-- Sequence numbers that do not fall.
abbrev pub Ascending : List MergeEntry → Type 0
Ascending [] = Unit
Ascending (a ∷ xs) = All (λ b. a.seq ≤ b.seq) xs × Ascending xs

All-insert :
    (P : MergeEntry → Type 0) (a : MergeEntry) (xs : List MergeEntry)
    → P a
    → All P xs
    → All P (insert_ord by_seq a xs)
All-insert P a [] h hs = (h, tt)
All-insert P a (b ∷ xs) h hs = elim (Bool-cases (leb a.seq b.seq)) [
  | inl before ↦ rw before (h, hs)
  | inr after ↦ rw after (hs.0, All-insert P a xs h hs.1)
]

pub All-sort :
    (P : MergeEntry → Type 0) (xs : List MergeEntry) → All P xs → All P (sort_ord by_seq xs)
All-sort P [] h = tt
All-sort P (a ∷ xs) h = All-insert P a (sort_ord by_seq xs) h.0 (All-sort P xs h.1)

insert-Ascending :
    (a : MergeEntry) (xs : List MergeEntry) → Ascending xs → Ascending (insert_ord by_seq a xs)
insert-Ascending a [] h = (tt, tt)
insert-Ascending a (b ∷ xs) h = elim (Bool-cases (leb a.seq b.seq)) [
  | inl before ↦
      let first : a.seq ≤ b.seq = ground (arith, before) in
      rw before ((first, All-map _ _ xs (λ c k. omega (arith, first, k)) h.0), h)
  | inr after ↦
      let first : b.seq ≤ a.seq = ground (arith, after) in
      rw after (All-insert (λ c. b.seq ≤ c.seq) a xs first h.0, insert-Ascending a xs h.1)
]

pub sort-Ascending : (xs : List MergeEntry) → Ascending (sort_ord by_seq xs)
sort-Ascending [] = tt
sort-Ascending (a ∷ xs) = insert-Ascending a (sort_ord by_seq xs) (sort-Ascending xs)

length-insert :
    (a : MergeEntry) (xs : List MergeEntry) → length (insert_ord by_seq a xs) ≡ suc (length xs)
length-insert a [] = refl
length-insert a (b ∷ xs) = ground (arith, length-insert a xs)

pub length-sort : (xs : List MergeEntry) → length (sort_ord by_seq xs) ≡ length xs
length-sort [] = refl
length-sort (a ∷ xs) = omega (arith, length-insert a (sort_ord by_seq xs), length-sort xs)

module _ (p : MergeEntry → Bool) where
  -- Among the entries that the test picks, none comes before a smaller one.
  abbrev Later : MergeEntry → MergeEntry → Type 0
  Later a b = p b ≡ true → a.seq ≤ b.seq

  abbrev pub Rising : List MergeEntry → Type 0
  Rising [] = Unit
  Rising (a ∷ xs) = (p a ≡ true → All (Later a) xs) × Rising xs

  select-insert_other :
      (a : MergeEntry) (xs : List MergeEntry)
      → p a ≡ false
      → select p (insert_ord by_seq a xs) ≡ select p xs
  select-insert_other a [] e = rw e refl
  select-insert_other a (b ∷ xs) e = elim (Bool-cases (leb a.seq b.seq)) [
    | inl before ↦ rw (before, e) refl
    | inr after ↦ rw after (ap (λ l. if p b then b ∷ l else l) (select-insert_other a xs e))
  ]

  select-insert_first :
      (a : MergeEntry) (xs : List MergeEntry)
      → p a ≡ true
      → All (Later a) xs
      → select p (insert_ord by_seq a xs) ≡ a ∷ select p xs
  select-insert_first a [] e h = rw e refl
  select-insert_first a (b ∷ xs) e h = elim (Bool-cases (leb a.seq b.seq)) [
    | inl before ↦ rw (before, e) refl
    | inr after ↦
        let other : p b ≡ false = ground (arith, after, h.0) in
        rw (after, other) (select-insert_first a xs e h.1)
  ]

  -- The sort keeps the order of the picked entries, if they rise.
  pub select-sort : (xs : List MergeEntry) → Rising xs → select p (sort_ord by_seq xs) ≡ select p xs
  select-sort [] h = refl
  select-sort (a ∷ xs) h = elim (Bool-cases (p a)) [
    | inl mine ↦ rw mine (
        select-insert_first a (sort_ord by_seq xs) mine (All-sort (Later a) xs (h.0 mine))
        ∙ ap (◌∷◌ a) (select-sort xs h.1))
    | inr other ↦ rw other (select-insert_other a (sort_ord by_seq xs) other ∙ select-sort xs h.1)
  ]
