-- ===== src/Manager/Table/Keys.antt =====
-- What writes to the process table leave in place.
use agent_procs.Prelude.{
  ◌≡◌, refl, ◌⊎◌, inl, inr, false, [], ◌∷◌, Option, some, Text, text_eq, text_eq_iff, arith,
  Bool-cases, exists,
}
use agent_procs.Prelude.Maps.{Map, lookup, adjust, has_key, keys}
use agent_procs.Manager.Types.{ManagedProcess}
use agent_procs.Manager.Table.{update_in, adjust_id}

pub lookup-adjust_other :
    (k j : Text) (f : ManagedProcess → ManagedProcess) (m : Map ManagedProcess)
    → text_eq k j ≡ false
    → lookup j (adjust k f m) ≡ lookup j m
unfolding lookup adjust
lookup-adjust_other k j f [] d = refl
lookup-adjust_other k j f ((i, q) ∷ m) d =
    ground (arith, text_eq_iff k j, text_eq_iff i k, text_eq_iff i j, lookup-adjust_other k j f m)

pub has_key-adjust :
    (k j : Text) (f : ManagedProcess → ManagedProcess) (m : Map ManagedProcess)
    → has_key j (adjust k f m) ≡ has_key j m
unfolding lookup adjust
has_key-adjust k j f [] = refl
has_key-adjust k j f ((i, q) ∷ m) =
    ground (arith, text_eq_iff i k, text_eq_iff i j, has_key-adjust k j f m)

pub has_key-keys :
    (k : Text) (m : Map ManagedProcess) → exists (λ n. text_eq n k) (keys m) ≡ has_key k m
unfolding lookup
has_key-keys k [] = refl
has_key-keys k ((i, q) ∷ m) = ground (arith, has_key-keys k m)

-- A write leaves a record that was there, changed or not.
abbrev pub Kept :
    (ManagedProcess → ManagedProcess) → ManagedProcess → Option ManagedProcess → Type 0
Kept f p o = (o ≡ some p) ⊎ (o ≡ some (f p))

lookup-adjust-Kept :
    (k j : Text) (f : ManagedProcess → ManagedProcess) (m : Map ManagedProcess) (p : ManagedProcess)
    → lookup j m ≡ some p
    → Kept f p (lookup j (adjust k f m))
unfolding lookup adjust
lookup-adjust-Kept k j f [] p e = absurd (cc)
lookup-adjust-Kept k j f ((i, q) ∷ m) p e = ground (arith, lookup-adjust-Kept k j f m p)

lookup-adjust_id-Kept :
    (t j : Text) (f : ManagedProcess → ManagedProcess) (m : Map ManagedProcess) (p : ManagedProcess)
    → lookup j m ≡ some p
    → Kept f p (lookup j (adjust_id t f m))
unfolding lookup adjust_id
lookup-adjust_id-Kept t j f [] p e = absurd (cc)
lookup-adjust_id-Kept t j f ((i, q) ∷ m) p e = ground (arith, lookup-adjust_id-Kept t j f m p)

pub lookup-update_in :
    (t j : Text) (f : ManagedProcess → ManagedProcess) (m : Map ManagedProcess) (p : ManagedProcess)
    → lookup j m ≡ some p
    → Kept f p (lookup j (update_in t f m))
unfolding update_in
lookup-update_in t j f m p e = elim (Bool-cases (has_key t m)) [
  | inl h ↦ rw (h, update_in) (lookup-adjust-Kept t j f m p e)
  | inr h ↦ rw (h, update_in) (lookup-adjust_id-Kept t j f m p e)
]
