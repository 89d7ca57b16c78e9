-- ===== src/Prelude/Sort.antt =====
-- The order of strings, and the stable sort by a key of type `Text`.
use Prim.Native.Nat.{compare, Ordering}
use mathlib.Core.Bool.{Bool, true, false}
use mathlib.Core.List.{List, [], ◌∷◌}
use agent_procs.Prelude.Tests.{if◌then◌else◌}
use agent_procs.Prelude.Texts.{Text}

-- `a <= b`, byte by byte.
unfoldable pub text_le : Text → Text → Bool
text_le [] t = true
text_le (x ∷ s) [] = false
text_le (x ∷ s) (y ∷ t) = elim (compare x y) [
  | Ordering.lt ↦ true
  | Ordering.eq ↦ text_le s t
  | Ordering.gt ↦ false
]

module _ {ℓ} {A : Type ℓ} (key : A → Text) where
  unfoldable pub insert_sorted : A → List A → List A
  insert_sorted a [] = a ∷ []
  insert_sorted a (b ∷ xs) = if text_le (key a) (key b) then a ∷ b ∷ xs else b ∷ insert_sorted a xs

  -- `sort_by(|a, b| key(a).cmp(key(b)))`
  unfoldable pub sort_by : List A → List A
  unfolding insert_sorted
  sort_by [] = []
  sort_by (a ∷ xs) = insert_sorted a (sort_by xs)

module _ {ℓ} {A : Type ℓ} (le : A → A → Bool) where
  abbrev pub insert_ord : A → List A → List A
  insert_ord a [] = a ∷ []
  insert_ord a (b ∷ xs) = if le a b then a ∷ b ∷ xs else b ∷ insert_ord a xs

  -- The stable sort by an order: `sort_by_key`.
  abbrev pub sort_ord : List A → List A
  sort_ord [] = []
  sort_ord (a ∷ xs) = insert_ord a (sort_ord xs)
