-- ===== src/Ports/Assign.antt =====
-- What `auto_assign_port` returns: a free port of the range, whenever there is one.
use agent_procs.Prelude.{
  ℕ, zero, suc, ◌+◌, ◌-◌, ◌%◌, ◌≤◌, ◌<◌, ◌≡◌, ◌≢◌, refl, sym, ap, subst, ◌∙◌, inl, inr, Bool, true,
  false, List, Option, none, some, arith, Bool-cases,
}
use mathlib.Core.Option.{some-injective}
use mathlib.Core.Sum.{inr-injective}
use agent_procs.Ports.{
  PortAllocator, auto_port_min, auto_port_max, range_size, is_assigned, candidate, scan_ports,
  auto_assign_port, with_scan,
}

-- A port that no process holds and that can be bound.
abbrev pub Usable : (ℕ → Bool) → List ℕ → ℕ → Type 0
Usable can_bind assigned p = (is_assigned p assigned ≡ false) × (can_bind p ≡ true)

abbrev pub InRange : ℕ → Type 0
InRange p = (auto_port_min ≤ p) × (p ≤ auto_port_max)

candidate-InRange : (next i : ℕ) → InRange (candidate next i)
unfolding candidate
candidate-InRange next i = (omega arith, omega arith)

-- Every port of the range comes up within one round of the scan.
candidate-covers : (next q : ℕ) → InRange q → (i : ℕ) × (i < range_size) × (candidate next i ≡ q)
unfolding candidate
candidate-covers next q r = (
  (q - auto_port_min + (range_size - (next - auto_port_min) % range_size)) % range_size,
  omega arith,
  omega (arith, r.0, r.1),
)

some≢none {ℓ} : {A : Type ℓ} (x : A) → some x ≢ none
some≢none x e = cc

module _ (can_bind : ℕ → Bool) (assigned : List ℕ) (next : ℕ) where
  scan-Usable :
      (i left p : ℕ)
      → scan_ports can_bind assigned next i left ≡ some p
      → Usable can_bind assigned p × InRange p
  unfolding scan_ports
  scan-Usable i zero p e = absurd (cc)
  scan-Usable i (suc left) p e = elim (Bool-cases (is_assigned (candidate next i) assigned)) [
    | inl held ↦ scan-Usable (i + 1) left p (rw held at e)
    | inr free ↦ elim (Bool-cases (can_bind (candidate next i))) [
      | inr taken ↦ scan-Usable (i + 1) left p (rw (free, taken) at e)
      | inl fits ↦
          subst (λ q. Usable can_bind assigned q × InRange q)
            (some-injective (candidate next i) p (rw (free, fits) at e))
            ((free, fits), candidate-InRange next i)
    ]
  ]

  -- One round that fails: its candidate is not usable, and the rest fails.
  round-none :
      (i left : ℕ)
      → scan_ports can_bind assigned next i (suc left) ≡ none
      → (¬ Usable can_bind assigned (candidate next i))
        × (scan_ports can_bind assigned next (i + 1) left ≡ none)
  unfolding scan_ports
  round-none i left e = elim (Bool-cases (is_assigned (candidate next i) assigned)) [
    | inl held ↦ ((λ u. ground (arith, held, u.0)), rw held at e)
    | inr free ↦ elim (Bool-cases (can_bind (candidate next i))) [
      | inl fits ↦ absurd (some≢none _ (rw (free, fits) at e))
      | inr taken ↦ ((λ u. ground (arith, taken, u.1)), rw (free, taken) at e)
    ]
  ]

  scan-none :
      (i left : ℕ)
      → scan_ports can_bind assigned next i left ≡ none
      → (j : ℕ) → j < left
      → ¬ Usable can_bind assigned (candidate next (i + j))
  scan-none i zero e j h u = omega (arith, h)
  scan-none i (suc left) e zero h u =
      (round-none i left e).0
        (subst (λ n. Usable can_bind assigned (candidate next n)) (omega arith) u)
  scan-none i (suc left) e (suc j) h u =
      scan-none (i + 1) left (round-none i left e).1 j (omega (arith, h))
        (subst (λ n. Usable can_bind assigned (candidate next n)) (omega arith) u)

with_scan-Usable :
    (can_bind : ℕ → Bool) (assigned : List ℕ) (a : PortAllocator) (o : Option ℕ) (p : ℕ)
    → scan_ports can_bind assigned a.next_auto_port 0 range_size ≡ o
    → (with_scan a o).0 ≡ inr p
    → Usable can_bind assigned p × InRange p × InRange (with_scan a o).1.next_auto_port
with_scan-Usable can_bind assigned a none p e r = absurd (cc)
with_scan-Usable can_bind assigned a (some q) p e r =
    let qp : q ≡ p = inr-injective q p r in
    let (u, (low, high)) = scan-Usable can_bind assigned a.next_auto_port 0 range_size q e in
    (
      subst (Usable can_bind assigned) qp u,
      (omega (arith, qp, low), omega (arith, qp, high)),
      ground arith,
    )

-- If `auto_assign_port` gives a port, it is in the range, held by no process, and free to bind; and
-- the allocator goes on from a port of the range.
pub auto_assign_port-Usable :
    (can_bind : ℕ → Bool) (assigned : List ℕ) (a : PortAllocator) (p : ℕ)
    → (auto_assign_port can_bind assigned a).0 ≡ inr p
    → Usable can_bind assigned p
      × InRange p
      × InRange (auto_assign_port can_bind assigned a).1.next_auto_port
unfolding auto_assign_port
auto_assign_port-Usable can_bind assigned a p r = with_scan-Usable can_bind assigned a _ p refl r

with_scan_complete :
    (can_bind : ℕ → Bool) (assigned : List ℕ) (a : PortAllocator) (o : Option ℕ) (q : ℕ)
    → scan_ports can_bind assigned a.next_auto_port 0 range_size ≡ o
    → InRange q
    → Usable can_bind assigned q
    → (p : ℕ) × ((with_scan a o).0 ≡ inr p)
with_scan_complete can_bind assigned a none q e r u =
    let (i, less, at_q) = candidate-covers a.next_auto_port q r in
    absurd (
      scan-none can_bind assigned a.next_auto_port 0 range_size e i less (
        subst (Usable can_bind assigned) (sym at_q ∙ ap (candidate a.next_auto_port) (omega arith))
          u))
with_scan_complete can_bind assigned a (some p) q e r u = (p, refl)

-- If some port of the range is usable, `auto_assign_port` gives a port.
pub auto_assign_port_complete :
    (can_bind : ℕ → Bool) (assigned : List ℕ) (a : PortAllocator) (q : ℕ)
    → InRange q
    → Usable can_bind assigned q
    → (p : ℕ) × ((auto_assign_port can_bind assigned a).0 ≡ inr p)
unfolding auto_assign_port
auto_assign_port_complete can_bind assigned a q r u =
    with_scan_complete can_bind assigned a _ q refl r u
