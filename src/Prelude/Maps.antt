-- ===== src/Prelude/Maps.antt =====
-- A `HashMap<String, V>` as its entries, in an arbitrary order of iteration.
use mathlib.Core.Logic.{inl, inr}
use mathlib.Core.Path.{◌≡◌, refl, ap, subst}
use mathlib.Core.Bool.{Bool, false}
use mathlib.Core.List.{List, [], ◌∷◌, map}
use mathlib.Core.Option.{Option, none, some, some-injective}
use native.Mathlib.Omega.{arith}
use agent_procs.Prelude.Tests.{if◌then◌else◌, is_some, Bool-cases}
use agent_procs.Prelude.Texts.{Text, text_eq, text_eq_iff}

abbrev pub Map {ℓ} : Type ℓ → Type ℓ
Map V = List (Text × V)

module _ {ℓ} {V : Type ℓ} where
  unfoldable pub lookup : Text → Map V → Option V
  lookup k [] = none
  lookup k ((j, v) ∷ m) = if text_eq j k then some v else lookup k m

  unfoldable pub insert : Text → V → Map V → Map V
  insert k v [] = (k, v) ∷ []
  insert k v ((j, w) ∷ m) = if text_eq j k then (k, v) ∷ m else (j, w) ∷ insert k v m

  -- `get_mut` and a write through it.
  unfoldable pub adjust : Text → (V → V) → Map V → Map V
  adjust k f [] = []
  adjust k f ((j, w) ∷ m) = if text_eq j k then (j, f w) ∷ m else (j, w) ∷ adjust k f m

  unfoldable pub remove : Text → Map V → Map V
  remove k [] = []
  remove k ((j, w) ∷ m) = if text_eq j k then remove k m else (j, w) ∷ remove k m

  abbrev pub has_key : Text → Map V → Bool
  has_key k m = is_some (lookup k m)

  abbrev pub values : Map V → List V
  values = map (λ e. e.1)

  abbrev pub keys : Map V → List Text
  keys = map (λ e. e.0)

  pub lookup-insert :
      (k j : Text) (v : V) (m : Map V)
      → lookup j (insert k v m) ≡ (if text_eq k j then some v else lookup j m)
  unfolding lookup insert
  lookup-insert k j v [] = refl
  lookup-insert k j v ((i, w) ∷ m) =
      ground (arith, text_eq_iff k j, text_eq_iff i k, text_eq_iff i j, lookup-insert k j v m)

  pub lookup-adjust :
      (k : Text) (f : V → V) (v : V) (m : Map V)
      → lookup k m ≡ some v
      → lookup k (adjust k f m) ≡ some (f v)
  unfolding lookup adjust
  lookup-adjust k f v [] h = absurd (cc)
  lookup-adjust k f v ((i, w) ∷ m) h = elim (Bool-cases (text_eq i k)) [
    | inl same ↦
        let mine : some w ≡ some v =
          subst (λ b. (if b then some w else lookup k m) ≡ some v) same h in
        rw (same, same) (ap (λ x. some (f x)) (some-injective w v mine))
    | inr other ↦
        let later : lookup k m ≡ some v =
          subst (λ b. (if b then some w else lookup k m) ≡ some v) other h in
        rw (other, other) (lookup-adjust k f v m later)
  ]

  pub lookup-remove :
      (k j : Text) (m : Map V) → text_eq k j ≡ false → lookup j (remove k m) ≡ lookup j m
  unfolding lookup remove
  lookup-remove k j [] h = refl
  lookup-remove k j ((i, w) ∷ m) h =
      ground (arith, h, text_eq_iff k j, text_eq_iff i k, text_eq_iff i j, lookup-remove k j m)
