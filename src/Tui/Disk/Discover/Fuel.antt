-- ===== src/Tui/Disk/Discover/Fuel.antt =====
-- The search for rotated files ends by itself.
use agent_procs.Prelude.{
  ℕ, zero, suc, ◌+◌, ◌-◌, ◌*◌, ◌/◌, ◌%◌, ◌^◌, ◌≤◌, ◌<◌, ◌≡◌, ◌≢◌, refl, sym, ap, subst, ◌∙◌, true,
  false, [], ◌∷◌, ◌++◌, some, Text, bytes, ltb, if◌then◌else◌, is_some, length, arith, Bool-cases,
  inl, inr, ◌⊎◌,
}
use agent_procs.Prelude.Texts.{text_eq, text_eq_iff, decimal, decimal_on}
use agent_procs.Prelude.Maps.{lookup, remove, has_key, lookup-remove}
use agent_procs.Logs.Files.{Files, rotated_path}
use agent_procs.Tui.Disk.Discover.{rotated_from, segment_at}
use mathlib.Core.List.{append_cancel_left}

-- The number that digits print, after the number `a`.
abbrev value : ℕ → Text → ℕ
value a [] = a
value a (c ∷ s) = value (a * 10 + (c - 48)) s

value-decimal_on :
    (fuel n : ℕ) (acc : Text) → n < 10 ^ fuel → value 0 (decimal_on fuel n acc) ≡ value n acc
unfolding decimal_on
value-decimal_on zero n acc h = ap (λ m. value m acc) (omega (arith, h))
value-decimal_on (suc fuel) n acc h = elim (Bool-cases (ltb n 10)) [
  | inl last ↦ rw last (ap (λ m. value m acc) (omega arith))
  | inr more ↦ rw more (
      value-decimal_on fuel (n / 10) ((48 + n % 10) ∷ acc) (omega (arith, h))
      ∙ ap (λ m. value m acc) (omega arith))
]

value-decimal : (n : ℕ) → n < 10 ^ 20 → value 0 (decimal n) ≡ n
unfolding decimal
value-decimal n h = value-decimal_on 20 n [] h

rotated_path-different :
    (base : Text) (m n : ℕ)
    → m < 10 ^ 20
    → n < 10 ^ 20
    → m ≢ n
    → text_eq (rotated_path base m) (rotated_path base n) ≡ false
rotated_path-different base m n hm hn ne =
    elim (Bool-cases (text_eq (rotated_path base m) (rotated_path base n))) [
      | inl same ↦
          let digits =
            append_cancel_left (base ++ bytes ".") (decimal m) (decimal n)
              ((text_eq_iff (rotated_path base m) (rotated_path base n)).0 same) in
          absurd (ne (sym (value-decimal m hm) ∙ ap (value 0) digits ∙ value-decimal n hn))
      | inr other ↦ other
    ]

length-remove : (k : Text) (files : Files) → length (remove k files) ≤ length files
unfolding remove
length-remove k [] = omega arith
length-remove k ((j, c) ∷ files) = ground (arith, length-remove k files)

length-remove_present :
    (k : Text) (files : Files) → has_key k files ≡ true → length (remove k files) < length files
unfolding lookup remove
length-remove_present k [] h = absurd (ground (arith, h))
length-remove_present k ((j, c) ∷ files) h = elim (Bool-cases (text_eq j k)) [
  | inl same ↦ rw same (omega (arith, length-remove k files))
  | inr other ↦
      let later : has_key k files ≡ true =
        subst (λ b. is_some (if b then some c else lookup k files) ≡ true) other h in
      rw other (omega (arith, length-remove_present k files later))
]

module _ (base : Text) where
  -- The `fuel` rotated files from `n` on are all there.
  abbrev Present : ℕ → ℕ → Files → Type 0
  Present zero n files = Unit
  Present (suc fuel) n files =
      (has_key (rotated_path base n) files ≡ true) × Present fuel (suc n) files

  Present-remove :
      (fuel n k : ℕ) (files : Files)
      → k < n
      → n + fuel < 10 ^ 20
      → Present fuel n files
      → Present fuel n (remove (rotated_path base k) files)
  Present-remove zero n k files l h p = tt
  Present-remove (suc fuel) n k files l h p =
      let different =
        rotated_path-different base k n (omega (arith, l, h)) (omega (arith, h))
          (λ e. absurd (omega (arith, e, l))) in
      (
        ap is_some (lookup-remove (rotated_path base k) (rotated_path base n) files different)
            ∙ p.0,
        Present-remove fuel (suc n) k files (omega (arith, l)) (omega (arith, h)) p.1,
      )

  Present-length :
      (fuel n : ℕ) (files : Files) → n + fuel < 10 ^ 20 → Present fuel n files → fuel ≤ length files
  Present-length zero n files h p = omega arith
  Present-length (suc fuel) n files h p =
      let others = Present-remove fuel (suc n) n files (omega arith) (omega (arith, h)) p.1 in
      let rest =
        Present-length fuel (suc n) (remove (rotated_path base n) files) (omega (arith, h))
          others in
      omega (arith, rest, length-remove_present (rotated_path base n) files p.0)

  -- One more round changes nothing, or all rounds found a file.
  rotated_from-cases :
      (files : Files) (fuel n : ℕ)
      → (rotated_from files base (suc fuel) n ≡ rotated_from files base fuel n)
        ⊎ Present (suc fuel) n files
  unfolding rotated_from
  rotated_from-cases files zero n = elim (Bool-cases (has_key (rotated_path base n) files)) [
    | inl there ↦ inr (there, tt)
    | inr missing ↦ inl (rw missing refl)
  ]
  rotated_from-cases files (suc fuel) n = elim (Bool-cases (has_key (rotated_path base n) files)) [
    | inl there ↦ elim (rotated_from-cases files fuel (suc n)) [
      | inl same ↦ inl (rw there (ap (◌∷◌ (n, segment_at files (rotated_path base n))) same))
      | inr all ↦ inr (there, all)
    ]
    | inr missing ↦ inl (rw missing refl)
  ]

-- The search for rotated files ends by itself: as many rounds as there are files are enough, and with
-- more of them it finds the same. File numbers stay below 10 ^ 20.
pub rotated_from-enough :
    (files : Files) (base : Text) (more n : ℕ)
    → n + (length files + more) < 10 ^ 20
    → rotated_from files base (length files + more) n ≡ rotated_from files base (length files) n
rotated_from-enough files base zero n h = ap (λ k. rotated_from files base k n) (omega arith)
rotated_from-enough files base (suc more) n h =
    let rounds : length files + suc more ≡ suc (length files + more) = omega arith in
    ap (λ k. rotated_from files base k n) rounds
    ∙ elim (rotated_from-cases base files (length files + more) n) [
      | inl same ↦ same ∙ rotated_from-enough files base more n (omega (arith, h))
      | inr all ↦
          let few =
            Present-length base (suc (length files + more)) n files (omega (arith, h)) all in
          absurd (omega (arith, few))
    ]
