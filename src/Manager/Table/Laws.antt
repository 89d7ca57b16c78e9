-- ===== src/Manager/Table/Laws.antt =====
-- Lookups and updates of the process table, read through the name of the record they reach.
use agent_procs.Prelude.{
  ℕ, ◌≡◌, ◌≢◌, refl, sym, ap, ◌∙◌, ◌⊎◌, inl, inr, true, false, [], ◌∷◌, none, some, Text, text_eq,
  text_eq_iff, text_eq_refl, text_eq→eq, arith, Bool-cases, Option-cases, subst,
}
use mathlib.Core.Option.{some-injective}
use agent_procs.Prelude.Maps.{Map, lookup, insert, adjust, lookup-insert}
use agent_procs.Manager.Types.{ManagedProcess}
use agent_procs.Manager.Table.{find_id, find_in, adjust_id, update_in}

-- A property of every entry.
abbrev pub Entries {ℓ} : (Text → ManagedProcess → Type ℓ) → Map ManagedProcess → Type ℓ
Entries P [] = Unit
Entries P ((k, p) ∷ m) = P k p × Entries P m

abbrev pub Avoids : ℕ → Map ManagedProcess → Type 0
Avoids g = Entries (λ k p. p.generation ≢ g)

-- No two entries share a name or a generation.
abbrev pub Distinct : Map ManagedProcess → Type 0
Distinct [] = Unit {0}
Distinct ((k, p) ∷ m) = (lookup k m ≡ none) × Avoids p.generation m × Distinct m

abbrev pub Named : Map ManagedProcess → Type 0
Named = Entries (λ k p. p.name ≡ k)

pub Entries-map {ℓ κ} :
    (P : Text → ManagedProcess → Type ℓ) (Q : Text → ManagedProcess → Type κ)
    (m : Map ManagedProcess)
    → ((k : Text) (p : ManagedProcess) → P k p → Q k p)
    → Entries P m
    → Entries Q m
Entries-map P Q [] f h = tt
Entries-map P Q ((k, p) ∷ m) f h = (f k p h.0, Entries-map P Q m f h.1)

none≢some {ℓ} : {A : Type ℓ} (a : A) → none ≡ some a → ⊥
none≢some a e = cc

-- A lookup ends at the first entry or goes on behind it.
pub lookup_cases :
    (k j : Text) (q p : ManagedProcess) (m : Map ManagedProcess)
    → lookup k ((j, q) ∷ m) ≡ some p
    → ((text_eq j k ≡ true) × (j ≡ k) × (q ≡ p)) ⊎ ((text_eq j k ≡ false) × (lookup k m ≡ some p))
unfolding lookup
lookup_cases k j q p m e = elim (Bool-cases (text_eq j k)) [
  | inl same ↦ inl (same, text_eq→eq j k same, some-injective q p (rw same at e))
  | inr other ↦ inr (other, rw other at e)
]

module _ {ℓ} (P : Text → ManagedProcess → Type ℓ) where
  pub Entries-lookup :
      (k : Text) (m : Map ManagedProcess) (p : ManagedProcess)
      → Entries P m
      → lookup k m ≡ some p
      → P k p
  unfolding lookup
  Entries-lookup k [] p h e = absurd (none≢some p e)
  Entries-lookup k ((j, q) ∷ m) p h e = elim (lookup_cases k j q p m e) [
    | inl (same, jk, qp) ↦ subst (λ i. P i p) jk (subst (P j) qp h.0)
    | inr (other, later) ↦ Entries-lookup k m p h.1 later
  ]

  pub Entries-set :
      (k : Text) (f : ManagedProcess → ManagedProcess) (m : Map ManagedProcess) (p : ManagedProcess)
      → Entries P m
      → lookup k m ≡ some p
      → P k (f p)
      → Entries P (adjust k f m)
  unfolding adjust
  Entries-set k f [] p h e new = tt
  Entries-set k f ((j, q) ∷ m) p h e new = elim (lookup_cases k j q p m e) [
    | inl (same, jk, qp) ↦
        rw same (subst (λ i. P i (f q)) (sym jk) (subst (λ r. P k (f r)) (sym qp) new), h.1)
    | inr (other, later) ↦ rw other (h.0, Entries-set k f m p h.1 later new)
  ]

  pub Entries-insert :
      (k : Text) (v : ManagedProcess) (m : Map ManagedProcess)
      → Entries P m
      → P k v
      → Entries P (insert k v m)
  unfolding insert
  Entries-insert k v [] h new = (new, tt)
  Entries-insert k v ((j, q) ∷ m) h new = elim (Bool-cases (text_eq j k)) [
    | inl same ↦ rw same (new, h.1)
    | inr other ↦ rw other (h.0, Entries-insert k v m h.1 new)
  ]

  module _ (f : ManagedProcess → ManagedProcess)
      (keep : (k : Text) (p : ManagedProcess) → P k p → P k (f p)) where
    Entries-adjust_all :
        (k : Text) (m : Map ManagedProcess) → Entries P m → Entries P (adjust k f m)
    unfolding adjust
    Entries-adjust_all k [] h = tt
    Entries-adjust_all k ((j, q) ∷ m) h = elim (Bool-cases (text_eq j k)) [
      | inl same ↦ rw same (keep j q h.0, h.1)
      | inr other ↦ rw other (h.0, Entries-adjust_all k m h.1)
    ]

    Entries-adjust_id :
        (t : Text) (m : Map ManagedProcess) → Entries P m → Entries P (adjust_id t f m)
    unfolding adjust_id
    Entries-adjust_id t [] h = tt
    Entries-adjust_id t ((j, q) ∷ m) h = elim (Bool-cases (text_eq q.id t)) [
      | inl same ↦ rw same (keep j q h.0, h.1)
      | inr other ↦ rw other (h.0, Entries-adjust_id t m h.1)
    ]

    -- A property that `f` keeps is kept by a write of `f` anywhere.
    pub Entries-update :
        (t : Text) (m : Map ManagedProcess) → Entries P m → Entries P (update_in t f m)
    unfolding update_in
    Entries-update t m h = elim (Option-cases (lookup t m)) [
      | inl e ↦ rw e (Entries-adjust_id t m h)
      | inr (p, e) ↦ rw e (Entries-adjust_all t m h)
    ]

-- A write to one record, where the other records may lose `P` for a weaker `Q`.
pub Entries-adjust {ℓ κ} :
    (P : Text → ManagedProcess → Type ℓ) (Q : Text → ManagedProcess → Type κ) (k : Text)
    (f : ManagedProcess → ManagedProcess) (m : Map ManagedProcess) (p : ManagedProcess)
    → ((j : Text) (q : ManagedProcess) → q.generation ≢ p.generation → P j q → Q j q)
    → Distinct m
    → Entries P m
    → lookup k m ≡ some p
    → (P k p → Q k (f p))
    → Entries Q (adjust k f m)
unfolding adjust
Entries-adjust P Q k f [] p others d h e new = tt
Entries-adjust P Q k f ((j, q) ∷ m) p others d h e new = elim (lookup_cases k j q p m e) [
  | inl (same, jk, qp) ↦
      let hp : P k p = subst (λ i. P i p) jk (subst (P j) qp h.0) in
      let away : Avoids p.generation m = subst (λ r. Avoids r.generation m) qp d.1 in
      rw same (
        subst (λ i. Q i (f q)) (sym jk) (subst (λ r. Q k (f r)) (sym qp) (new hp)),
        spread m away h.1,
      )
  | inr (other, later) ↦
      let apart : q.generation ≢ p.generation =
        λ e'. Entries-lookup (λ i r. r.generation ≢ q.generation) k m p d.1 later (sym e') in
      rw other (others j q apart h.0, Entries-adjust P Q k f m p others d.2 h.1 later new)
]
  where
    spread : (r : Map ManagedProcess) → Avoids p.generation r → Entries P r → Entries Q r
    spread [] a b = tt
    spread ((i, s) ∷ r) a b = (others i s a.0 b.0, spread r a.1 b.1)

lookup-adjust-none :
    (i k : Text) (f : ManagedProcess → ManagedProcess) (m : Map ManagedProcess)
    → lookup i m ≡ none
    → lookup i (adjust k f m) ≡ none
unfolding lookup adjust
lookup-adjust-none i k f [] h = refl
lookup-adjust-none i k f ((j, q) ∷ m) h = ground (arith, lookup-adjust-none i k f m)

lookup-adjust_id-none :
    (i t : Text) (f : ManagedProcess → ManagedProcess) (m : Map ManagedProcess)
    → lookup i m ≡ none
    → lookup i (adjust_id t f m) ≡ none
unfolding lookup adjust_id
lookup-adjust_id-none i t f [] h = refl
lookup-adjust_id-none i t f ((j, q) ∷ m) h = ground (arith, lookup-adjust_id-none i t f m)

-- A write keeps the table distinct if it keeps the generation or takes a new one.
pub Distinct-adjust :
    (k : Text) (f : ManagedProcess → ManagedProcess) (m : Map ManagedProcess) (p : ManagedProcess)
    → Distinct m
    → lookup k m ≡ some p
    → ((f p).generation ≡ p.generation) ⊎ Avoids (f p).generation m
    → Distinct (adjust k f m)
unfolding adjust
Distinct-adjust k f [] p d e new = tt
Distinct-adjust k f ((j, q) ∷ m) p d e new = elim (lookup_cases k j q p m e) [
  | inl (same, jk, qp) ↦
      rw same (d.0, subst (λ r. Avoids (f r).generation m) (sym qp) (avoided new qp), d.2)
  | inr (other, later) ↦ rw other (
    lookup-adjust-none j k f m d.0,
    Entries-set (λ i r. r.generation ≢ q.generation) k f m p d.1 later (apart new later),
    Distinct-adjust k f m p d.2 later (behind new),
  )
]
  where
    avoided :
        ((f p).generation ≡ p.generation) ⊎ Avoids (f p).generation ((j, q) ∷ m)
        → q ≡ p
        → Avoids (f p).generation m
    avoided (inl kept) qp =
        subst (λ g. Avoids g m) (sym kept) (subst (λ r. Avoids r.generation m) qp d.1)
    avoided (inr fresh) qp = fresh.1

    apart :
        ((f p).generation ≡ p.generation) ⊎ Avoids (f p).generation ((j, q) ∷ m)
        → lookup k m ≡ some p
        → (f p).generation ≢ q.generation
    apart (inl kept) later =
        λ e'. Entries-lookup (λ i r. r.generation ≢ q.generation) k m p d.1 later (sym kept ∙ e')
    apart (inr fresh) later = λ e'. fresh.0 (sym e')

    behind :
        ((f p).generation ≡ p.generation) ⊎ Avoids (f p).generation ((j, q) ∷ m)
        → ((f p).generation ≡ p.generation) ⊎ Avoids (f p).generation m
    behind (inl kept) = inl kept
    behind (inr fresh) = inr fresh.1

Distinct-adjust_id :
    (t : Text) (f : ManagedProcess → ManagedProcess) (m : Map ManagedProcess)
    → ((p : ManagedProcess) → (f p).generation ≡ p.generation)
    → Distinct m
    → Distinct (adjust_id t f m)
unfolding adjust_id
Distinct-adjust_id t f [] keep d = tt
Distinct-adjust_id t f ((j, q) ∷ m) keep d = elim (Bool-cases (text_eq q.id t)) [
  | inl same ↦ rw same (d.0, subst (λ g. Avoids g m) (sym (keep q)) d.1, d.2)
  | inr other ↦ rw other (
    lookup-adjust_id-none j t f m d.0,
    Entries-adjust_id (λ k p. p.generation ≢ q.generation) f (λ k p h e. h (sym (keep p) ∙ e)) t m
        d.1,
    Distinct-adjust_id t f m keep d.2,
  )
]

pub Distinct-update :
    (t : Text) (f : ManagedProcess → ManagedProcess) (m : Map ManagedProcess)
    → ((p : ManagedProcess) → (f p).generation ≡ p.generation)
    → Distinct m
    → Distinct (update_in t f m)
unfolding update_in
Distinct-update t f m keep d = elim (Option-cases (lookup t m)) [
  | inl e ↦ rw e (Distinct-adjust_id t f m keep d)
  | inr (p, e) ↦ rw e (Distinct-adjust t f m p d e (inl (keep p)))
]

-- What `find` reaches stands under its own name, and `find_mut` writes there.
abbrev pub Reaches : Text → Map ManagedProcess → ManagedProcess → Type 0
Reaches t m p =
    (lookup p.name m ≡ some p)
    × ((f : ManagedProcess → ManagedProcess) → update_in t f m ≡ adjust p.name f m)

by_id :
    (t : Text) (m : Map ManagedProcess) (p : ManagedProcess)
    → Named m
    → Distinct m
    → find_id t m ≡ some p
    → (lookup p.name m ≡ some p)
      × ((f : ManagedProcess → ManagedProcess) → adjust_id t f m ≡ adjust p.name f m)
unfolding find_id lookup adjust_id adjust
by_id t [] p n d e = absurd (none≢some p e)
by_id t ((j, q) ∷ m) p n d e = elim (Bool-cases (text_eq q.id t)) [
  | inl same ↦
      let qp : q ≡ p = some-injective q p (rw same at e) in
      let here : text_eq j p.name ≡ true =
        (text_eq_iff j p.name).1 (sym n.0 ∙ ap (λ r. r.name) qp) in
      (rw here (ap some qp), λ f. rw (same, here))
  | inr other ↦
      let (found, write) = by_id t m p n.1 d.2 (rw other at e) in
      let apart : text_eq j p.name ≡ false = elsewhere j m p d.0 found in
      (rw apart found, λ f. rw (other, apart) (ap (◌∷◌ (j, q)) (write f)))
]
  where
    elsewhere :
        (j : Text) (m : Map ManagedProcess) (p : ManagedProcess)
        → lookup j m ≡ none
        → lookup p.name m ≡ some p
        → text_eq j p.name ≡ false
    elsewhere j m p absent found = elim (Bool-cases (text_eq j p.name)) [
      | inl same ↦ absurd (
          none≢some p
            (sym absent ∙ subst (λ i. lookup i m ≡ some p) (sym (text_eq→eq j p.name same)) found))
      | inr other ↦ other
    ]

pub find_in-Reaches :
    (t : Text) (m : Map ManagedProcess) (p : ManagedProcess)
    → Named m
    → Distinct m
    → find_in t m ≡ some p
    → Reaches t m p
unfolding find_in update_in
find_in-Reaches t m p n d e = elim (Option-cases (lookup t m)) [
  | inl absent ↦
      let (found, write) = by_id t m p n d (rw (absent, find_in) at e) in
      (found, λ f. rw absent (write f))
  | inr (q, found) ↦
      let qp : q ≡ p = some-injective q p (rw (found, find_in) at e) in
      let own : p.name ≡ t =
        subst (λ r. r.name ≡ t) qp (Entries-lookup (λ k r. r.name ≡ k) t m q n found) in
      (
        subst (λ i. lookup i m ≡ some p) (sym own) (found ∙ ap some qp),
        λ f. rw found (subst (λ i. adjust t f m ≡ adjust i f m) (sym own) refl),
      )
]

pub find_in-lookup :
    (k : Text) (m : Map ManagedProcess) (p : ManagedProcess)
    → lookup k m ≡ some p
    → find_in k m ≡ some p
unfolding find_in
find_in-lookup k m p e = rw (e, find_in)

-- `insert` under a name that is there writes the entry.
pub insert-eq-adjust :
    (k : Text) (v : ManagedProcess) (m : Map ManagedProcess) (p : ManagedProcess)
    → lookup k m ≡ some p
    → insert k v m ≡ adjust k (λ q. v) m
unfolding insert adjust lookup
insert-eq-adjust k v [] p e = absurd (none≢some p e)
insert-eq-adjust k v ((j, q) ∷ m) p e = ground (arith, text_eq_iff j k, insert-eq-adjust k v m p)

pub Distinct-insert :
    (k : Text) (v : ManagedProcess) (m : Map ManagedProcess)
    → Distinct m
    → lookup k m ≡ none
    → Avoids v.generation m
    → Distinct (insert k v m)
unfolding insert lookup
Distinct-insert k v [] d e away = (refl, tt, tt)
Distinct-insert k v ((j, q) ∷ m) d e away = elim (Bool-cases (text_eq j k)) [
  | inl same ↦ absurd (none≢some q (sym e ∙ rw same))
  | inr other ↦ rw other (
    absent d.0,
    Entries-insert (λ i r. r.generation ≢ q.generation) k v m d.1 (λ e'. away.0 (sym e')),
    Distinct-insert k v m d.2 (rw other at e) away.1,
  )
]
  where
    absent : lookup j m ≡ none → lookup j (insert k v m) ≡ none
    absent h = ground (arith, lookup-insert k j v m, text_eq_iff k j, text_eq_iff j k)

-- Two writes to one record are one.
pub adjust-adjust :
    (k : Text) (f h : ManagedProcess → ManagedProcess) (m : Map ManagedProcess)
    → adjust k h (adjust k f m) ≡ adjust k (λ q. h (f q)) m
unfolding adjust
adjust-adjust k f h [] = refl
adjust-adjust k f h ((j, q) ∷ m) = ground (arith, adjust-adjust k f h m)

pub lookup-adjust_self :
    (k : Text) (f : ManagedProcess → ManagedProcess) (m : Map ManagedProcess) (p : ManagedProcess)
    → lookup k m ≡ some p
    → lookup k (adjust k f m) ≡ some (f p)
unfolding lookup adjust
lookup-adjust_self k f [] p e = absurd (none≢some p e)
lookup-adjust_self k f ((j, q) ∷ m) p e = elim (lookup_cases k j q p m e) [
  | inl (same, jk, qp) ↦ rw same (rw same (ap (λ r. some (f r)) qp))
  | inr (other, later) ↦ rw other (rw other (lookup-adjust_self k f m p later))
]

pub update_in-lookup :
    (k : Text) (f : ManagedProcess → ManagedProcess) (m : Map ManagedProcess) (p : ManagedProcess)
    → lookup k m ≡ some p
    → update_in k f m ≡ adjust k f m
unfolding update_in
update_in-lookup k f m p e = rw e

pub adjust_id_lem : (k : Text) (m : Map ManagedProcess) → adjust k (λ q. q) m ≡ m
unfolding adjust
adjust_id_lem k [] = refl
adjust_id_lem k ((j, q) ∷ m) = ground (arith, adjust_id_lem k m)

pub lookup-none-ne :
    (k j : Text) (q p : ManagedProcess) (m : Map ManagedProcess)
    → lookup j m ≡ none
    → lookup k m ≡ some p
    → text_eq j k ≡ false
lookup-none-ne k j q p m absent found = elim (Bool-cases (text_eq j k)) [
  | inl same ↦ absurd (
      none≢some p (sym absent ∙ subst (λ i. lookup i m ≡ some p) (sym (text_eq→eq j k same)) found))
  | inr other ↦ other
]

-- What holds of every record that a lookup finds holds of every entry.
pub Entries-of_lookup {ℓ} :
    (P : Text → ManagedProcess → Type ℓ) (m : Map ManagedProcess)
    → Distinct m
    → ((k : Text) (p : ManagedProcess) → lookup k m ≡ some p → P k p)
    → Entries P m
unfolding lookup
Entries-of_lookup P [] d h = tt
Entries-of_lookup P ((j, q) ∷ m) d h = (
  h j q (rw (text_eq_refl j)),
  Entries-of_lookup P m d.2 (λ k p e. h k p (rw (lookup-none-ne k j q p m d.0 e) e)),
)
