-- ===== src/Logs/Writer/Paths.antt =====
-- The paths of a log, its rotated files and their indexes are different.
use agent_procs.Prelude.{
  ℕ, zero, suc, ◌+◌, ◌/◌, ◌%◌, ◌≤◌, ◌<◌, ◌≡◌, ◌≢◌, refl, sym, ap, ◌∙◌, Bool, true, false, ◌&&◌, [],
  ◌∷◌, ◌++◌, Text, bytes, text_eq_iff, ltb, leb, every, length, length-append, arith, Bool-cases,
  inl, inr, append_assoc,
}
use agent_procs.Prelude.Texts.{decimal_on, text_eq, decimal}
use agent_procs.Logs.Files.{idx_path_for, rotated_path}
use mathlib.Core.List.{append_cancel_right, append_cancel_left}

pub longer_other : (j k : Text) → length j < length k → text_eq j k ≡ false
longer_other j k h = elim (Bool-cases (text_eq j k)) [
  | inl same ↦
      let e : length j ≡ length k = ap length ((text_eq_iff j k).0 same) in
      absurd (omega (arith, e, h))
  | inr other ↦ other
]

pub shorter_other : (j k : Text) → length k < length j → text_eq j k ≡ false
shorter_other j k h = elim (Bool-cases (text_eq j k)) [
  | inl same ↦
      let e : length j ≡ length k = ap length ((text_eq_iff j k).0 same) in
      absurd (omega (arith, e, h))
  | inr other ↦ other
]

text_eq-append : (p x y : Text) → text_eq (p ++ x) (p ++ y) ≡ text_eq x y
unfolding text_eq
text_eq-append [] x y = refl
text_eq-append (c ∷ p) x y = ground (arith, text_eq-append p x y)

abbrev is_digit : ℕ → Bool
is_digit c = leb 48 c && leb c 57

decimal_on-digits :
    (fuel n : ℕ) (acc : Text)
    → every is_digit acc ≡ true
    → every is_digit (decimal_on fuel n acc) ≡ true
unfolding decimal_on
decimal_on-digits zero n acc h = h
decimal_on-digits (suc fuel) n acc h = elim (Bool-cases (ltb n 10)) [
  | inl last ↦ let digit : is_digit (48 + n) ≡ true = ground (arith, last) in rw (last, digit) h
  | inr more ↦
      let digit : is_digit (48 + n % 10) ≡ true = ground arith in
      rw more (decimal_on-digits fuel (n / 10) ((48 + n % 10) ∷ acc) (rw digit h))
]

decimal_on-grown : (fuel n : ℕ) (acc : Text) → length acc ≤ length (decimal_on fuel n acc)
unfolding decimal_on
decimal_on-grown zero n acc = omega arith
decimal_on-grown (suc fuel) n acc = elim (Bool-cases (ltb n 10)) [
  | inl last ↦ rw last (omega arith)
  | inr more ↦
      let rest = decimal_on-grown fuel (n / 10) ((48 + n % 10) ∷ acc) in
      rw more (omega (arith, rest))
]

decimal_on-longer : (fuel n : ℕ) (acc : Text) → length acc < length (decimal_on (suc fuel) n acc)
unfolding decimal_on
decimal_on-longer fuel n acc = elim (Bool-cases (ltb n 10)) [
  | inl last ↦ rw last (omega arith)
  | inr more ↦
      let rest = decimal_on-grown fuel (n / 10) ((48 + n % 10) ∷ acc) in
      rw more (omega (arith, rest))
]

decimal-digits : (n : ℕ) → every is_digit (decimal n) ≡ true
unfolding decimal
decimal-digits n = decimal_on-digits 20 n [] refl

length-decimal : (n : ℕ) → 0 < length (decimal n)
unfolding decimal
length-decimal n = decimal_on-longer 19 n []

abbrev first_byte : Text → ℕ
first_byte [] = 0
first_byte (c ∷ s) = c

-- Only one prints as a single digit one.
decimal-one : (n : ℕ) → 2 ≤ n → decimal n ≢ 49 ∷ []
unfolding decimal decimal_on
decimal-one n h e = elim (Bool-cases (ltb n 10)) [
  | inl last ↦
      let shown : decimal n ≡ (48 + n) ∷ [] = rw last refl in
      let first : 48 + n ≡ 49 = ap first_byte (sym shown ∙ e) in absurd (omega (arith, first, h))
  | inr more ↦
      let rest = decimal_on 19 (n / 10) ((48 + n % 10) ∷ []) in
      let shown : decimal n ≡ rest = rw more refl in
      let one : length rest ≡ 1 = ap length (sym shown ∙ e) in
      let long : 1 < length rest = decimal_on-longer 18 (n / 10) ((48 + n % 10) ∷ []) in
      absurd (omega (arith, one, long))
]

-- A number is no text with another character.
not_digits : (n : ℕ) (y : Text) → every is_digit y ≡ false → text_eq (decimal n) y ≡ false
not_digits n y h = elim (Bool-cases (text_eq (decimal n) y)) [
  | inl same ↦
      let e : every is_digit (decimal n) ≡ every is_digit y =
        ap (every is_digit) ((text_eq_iff (decimal n) y).0 same) in
      absurd (ground (arith, e, h, decimal-digits n))
  | inr other ↦ other
]

length-rotated_path :
    (p : Text) (n : ℕ) → length (rotated_path p n) ≡ length p + 1 + length (decimal n)
length-rotated_path p n =
    omega (arith, length-append (p ++ bytes ".") (decimal n), length-append p (bytes "."))

length-idx_path_for : (p : Text) → length (idx_path_for p) ≡ length p + 4
length-idx_path_for p = length-append p (bytes ".idx")

-- A key that stands apart from a file and from its index.
abbrev pub Apart : Text → Text → Type 0
Apart p j = (text_eq p j ≡ false) × (text_eq (idx_path_for p) j ≡ false)

-- Rotated files are apart from the log and from its index.
pub rotated_path-log : (p : Text) (n : ℕ) → Apart (rotated_path p n) p
rotated_path-log p n = (
  shorter_other (rotated_path p n) p (omega (arith, length-rotated_path p n)),
  shorter_other (idx_path_for (rotated_path p n)) p
      (omega (arith, length-rotated_path p n, length-idx_path_for (rotated_path p n))),
)

pub rotated_path-index : (p : Text) (n : ℕ) → Apart (rotated_path p n) (idx_path_for p)
rotated_path-index p n = (
  ap (λ x. text_eq x (p ++ bytes ".idx")) (append_assoc p (bytes ".") (decimal n))
      ∙ text_eq-append p (bytes "." ++ decimal n) (bytes ".idx")
      ∙ text_eq-append (bytes ".") (decimal n) (bytes "idx")
      ∙ not_digits n (bytes "idx") refl,
  shorter_other (idx_path_for (rotated_path p n)) (idx_path_for p) (
      omega (
        arith,
        length-rotated_path p n,
        length-idx_path_for (rotated_path p n),
        length-idx_path_for p,
        length-decimal n,
      )),
)

text_ne : (s t : Text) → s ≢ t → text_eq s t ≡ false
text_ne s t h = elim (Bool-cases (text_eq s t)) [
  | inl same ↦ absurd (h ((text_eq_iff s t).0 same))
  | inr other ↦ other
]

one : decimal 1 ≡ 49 ∷ []
unfolding decimal decimal_on
one = refl

length-one : length (decimal 1) ≡ 1
length-one = ap length one

one-index : every is_digit (decimal 1 ++ bytes ".idx") ≡ false
one-index = ap (λ d. every is_digit (d ++ bytes ".idx")) one

rotated_path-other : (p : Text) (n : ℕ) → 2 ≤ n → rotated_path p n ≢ rotated_path p 1
rotated_path-other p n h e =
    decimal-one n h (append_cancel_left (p ++ bytes ".") (decimal n) (decimal 1) e ∙ one)

-- The excess file is apart from the first rotated file and from its index.
pub rotated_path-first : (p : Text) (n : ℕ) → 2 ≤ n → Apart (rotated_path p n) (rotated_path p 1)
rotated_path-first p n h = (
  text_ne (rotated_path p n) (rotated_path p 1) (rotated_path-other p n h),
  shorter_other (idx_path_for (rotated_path p n)) (rotated_path p 1) (
      omega (
        arith,
        length-rotated_path p n,
        length-idx_path_for (rotated_path p n),
        length-rotated_path p 1,
        length-decimal n,
        length-one,
      )),
)

pub rotated_path-first_index :
    (p : Text) (n : ℕ) → 2 ≤ n → Apart (rotated_path p n) (idx_path_for (rotated_path p 1))
rotated_path-first_index p n h = (
  text_ne (rotated_path p n) (idx_path_for (rotated_path p 1)) (λ e.
      let rest =
        append_cancel_left (p ++ bytes ".") (decimal n) (decimal 1 ++ bytes ".idx")
          (e ∙ append_assoc (p ++ bytes ".") (decimal 1) (bytes ".idx")) in
      let same = (text_eq_iff (decimal n) (decimal 1 ++ bytes ".idx")).1 rest in
      ground (arith, same, not_digits n (decimal 1 ++ bytes ".idx") one-index)),
  text_ne (idx_path_for (rotated_path p n)) (idx_path_for (rotated_path p 1)) (λ e.
      rotated_path-other p n h
        (append_cancel_right (rotated_path p n) (rotated_path p 1) (bytes ".idx") e)),
)

pub index-first : (p : Text) → text_eq (idx_path_for p) (rotated_path p 1) ≡ false
index-first p =
    shorter_other (idx_path_for p) (rotated_path p 1)
      (omega (arith, length-idx_path_for p, length-rotated_path p 1, length-one))

pub log-first : (p : Text) → text_eq p (rotated_path p 1) ≡ false
log-first p = longer_other p (rotated_path p 1) (omega (arith, length-rotated_path p 1, length-one))

pub log-first_index : (p : Text) → text_eq p (idx_path_for (rotated_path p 1)) ≡ false
log-first_index p =
    longer_other p (idx_path_for (rotated_path p 1))
      (omega (arith, length-rotated_path p 1, length-one, length-idx_path_for (rotated_path p 1)))

pub index-first_index :
    (p : Text) → text_eq (idx_path_for p) (idx_path_for (rotated_path p 1)) ≡ false
index-first_index p = longer_other (idx_path_for p) (idx_path_for (rotated_path p 1)) (
    omega (
      arith,
      length-rotated_path p 1,
      length-one,
      length-idx_path_for (rotated_path p 1),
      length-idx_path_for p,
    ))
