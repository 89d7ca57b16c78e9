-- ===== src/Config/Laws.antt =====
-- The startup order is found: the loop takes at most one round for each process, and one more.
use agent_procs.Prelude.{
  ℕ, zero, suc, ◌+◌, ◌-◌, ◌≤◌, ◌<◌, ◌≡◌, ◌≢◌, refl, sym, ap, subst, ◌∙◌, List, [], ◌∷◌, Option,
  none, some, ◌⊎◌, inl, inr, Text, text_eq_refl, ◌==◌, length, arith, Bool-cases,
}
use agent_procs.Prelude.Maps.{Map, adjust, remove}
use agent_procs.Config.{
  ProcessDef, ConfigError, Graph, at_zero, decrement, dependents_of, finish_group, round, peel,
  startup_order, order_from, add_all, start_graph,
}

length-adjust : (k : Text) (f : ℕ → ℕ) (m : Map ℕ) → length (adjust k f m) ≡ length m
unfolding adjust
length-adjust k f [] = refl
length-adjust k f ((j, d) ∷ m) = ground (arith, length-adjust k f m)

length-decrement : (ds : List Text) (m : Map ℕ) → length (decrement ds m) ≡ length m
length-decrement [] m = refl
length-decrement (d ∷ ds) m =
    length-decrement ds (adjust d (λ n. n - 1) m) ∙ length-adjust d (λ n. n - 1) m

length-remove : (k : Text) (m : Map ℕ) → length (remove k m) ≤ length m
unfolding remove
length-remove k [] = omega arith
length-remove k ((j, d) ∷ m) = ground (arith, length-remove k m)

length-finish_group :
    (dependents : Map (List Text)) (names : List Text) (m : Map ℕ)
    → length (finish_group dependents names m) ≤ length m
unfolding finish_group
length-finish_group dependents [] m = omega arith
length-finish_group dependents (name ∷ names) m = omega (
  arith,
  length-finish_group dependents names (decrement (dependents_of dependents name) (remove name m)),
  length-decrement (dependents_of dependents name) (remove name m),
  length-remove name m,
)

-- The first ready process is taken out.
remove-ready :
    (m : Map ℕ) (name : Text) (names : List Text)
    → at_zero m ≡ name ∷ names
    → length (remove name m) < length m
unfolding remove
remove-ready [] name names e = absurd (cc)
remove-ready ((k, d) ∷ m) name names e = elim (Bool-cases (d == 0)) [
  | inl z ↦
      let same : k ≡ name = ap (head_or k) (rw z at e) in
      ground (arith, length-remove name m, same, text_eq_refl name)
  | inr nz ↦ ground (arith, remove-ready m name names (rw nz at e))
]
  where
    head_or : Text → List Text → Text
    head_or t [] = t
    head_or t (x ∷ xs) = x

finish_group-ready :
    (dependents : Map (List Text)) (m : Map ℕ) (name : Text) (names : List Text)
    → at_zero m ≡ name ∷ names
    → length (finish_group dependents (name ∷ names) m) < length m
unfolding finish_group
finish_group-ready dependents m name names e = omega (
  arith,
  length-finish_group dependents names (decrement (dependents_of dependents name) (remove name m)),
  length-decrement (dependents_of dependents name) (remove name m),
  remove-ready m name names e,
)

round-none :
    (ready : List Text) (m : Map ℕ) (rest : Option (ConfigError ⊎ List (List Text)))
    → ((name : Text) (names : List Text) → ready ≡ name ∷ names → rest ≢ none)
    → round ready m rest ≢ none
round-none [] [] rest h e = absurd (cc)
round-none [] (x ∷ m) rest h e = absurd (cc)
round-none (name ∷ names) m none h e = h name names refl refl
round-none (name ∷ names) m (some r) h e = absurd (cc)

peel-enough :
    (fuel : ℕ) (dependents : Map (List Text)) (m : Map ℕ)
    → length m < fuel
    → peel fuel dependents m ≢ none
unfolding peel
peel-enough zero dependents m h = absurd (omega (arith, h))
peel-enough (suc fuel) dependents m h = round-none (at_zero m) m _ (λ name names e.
    let less : length (finish_group dependents (at_zero m) m) < length m =
      subst (λ r. length (finish_group dependents r m) < length m) (sym e)
        (finish_group-ready dependents m name names e) in
    peel-enough fuel dependents (finish_group dependents (at_zero m) m) (omega (arith, h, less)))

order_from-enough : (o : ConfigError ⊎ Graph) → order_from o ≢ none
order_from-enough (inl e) h = absurd (cc)
order_from-enough (inr g) h =
    peel-enough (length g.in_degree + 1) g.dependents g.in_degree (omega arith) h

-- The startup order is computed, or an error is, for every set of processes: the fuel is enough.
pub startup_order-total : (processes : Map ProcessDef) → startup_order processes ≢ none
unfolding startup_order
startup_order-total processes =
    order_from-enough (add_all processes processes (start_graph processes))
