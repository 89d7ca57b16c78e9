-- ===== src/Config/Errors.antt =====
-- When the startup order reports a dependency on no process.
use agent_procs.Prelude.{
  ℕ, zero, suc, ◌+◌, ◌≡◌, refl, ◌∙◌, Bool, true, false, not, ◌&&◌, List, [], ◌∷◌, Option, none,
  some, ◌⊎◌, inl, inr, Text, every, length, Bool-cases,
}
use agent_procs.Prelude.Maps.{Map, has_key}
use agent_procs.Config.{
  ProcessDef, ConfigError, Graph, add_edge, add_deps, add_all, at_zero, finish_group, prepend,
  round, peel, order_from, start_graph, startup_order,
}

-- Every dependency of every process is a process.
abbrev pub all_known : Map ProcessDef → Map ProcessDef → Bool
all_known processes = every (λ e. every (λ d. has_key d processes) e.1.depends_on)

abbrev is_unknown_dep : ConfigError → Bool
is_unknown_dep (ConfigError.unknown_dep from to) = true
is_unknown_dep ConfigError.cycle_detected = false

abbrev pub reports_unknown : Option (ConfigError ⊎ List (List Text)) → Bool
reports_unknown none = false
reports_unknown (some (inl e)) = is_unknown_dep e
reports_unknown (some (inr groups)) = false

-- The graph is not made.
abbrev fails : ConfigError ⊎ Graph → Bool
fails (inl e) = true
fails (inr g) = false

-- The only error is an unknown dependency.
abbrev OnlyUnknown : ConfigError ⊎ Graph → Type 0
OnlyUnknown (inl e) = is_unknown_dep e ≡ true
OnlyUnknown (inr g) = Unit

module _ (processes : Map ProcessDef) where
  abbrev then_add : Map ProcessDef → ConfigError ⊎ Graph → ConfigError ⊎ Graph
  then_add rest (inl e) = inl e
  then_add rest (inr h) = add_all processes rest h

  add_deps-fails :
      (name : Text) (deps : List Text) (g : Graph)
      → fails (add_deps processes name deps g) ≡ not (every (λ d. has_key d processes) deps)
  unfolding add_deps
  add_deps-fails name [] g = refl
  add_deps-fails name (d ∷ deps) g = elim (Bool-cases (has_key d processes)) [
    | inl there ↦ rw there (add_deps-fails name deps (add_edge name d g))
    | inr missing ↦ rw missing refl
  ]

  add_deps-OnlyUnknown :
      (name : Text) (deps : List Text) (g : Graph) → OnlyUnknown (add_deps processes name deps g)
  unfolding add_deps
  add_deps-OnlyUnknown name [] g = tt
  add_deps-OnlyUnknown name (d ∷ deps) g = elim (Bool-cases (has_key d processes)) [
    | inl there ↦ rw there (add_deps-OnlyUnknown name deps (add_edge name d g))
    | inr missing ↦ rw missing refl
  ]

  then_add-fails :
      (r : ConfigError ⊎ Graph) (rest : Map ProcessDef) (b : Bool)
      → fails r ≡ not b
      → ((g : Graph) → fails (add_all processes rest g) ≡ not (all_known processes rest))
      → fails (then_add rest r) ≡ not (b && all_known processes rest)
  then_add-fails (inl e) rest true h k = absurd (cc)
  then_add-fails (inl e) rest false h k = refl
  then_add-fails (inr g) rest true h k = k g
  then_add-fails (inr g) rest false h k = absurd (cc)

  then_add-OnlyUnknown :
      (r : ConfigError ⊎ Graph) (rest : Map ProcessDef)
      → OnlyUnknown r
      → ((g : Graph) → OnlyUnknown (add_all processes rest g))
      → OnlyUnknown (then_add rest r)
  then_add-OnlyUnknown (inl e) rest h k = h
  then_add-OnlyUnknown (inr g) rest h k = k g

  add_all-fails :
      (rest : Map ProcessDef) (g : Graph)
      → fails (add_all processes rest g) ≡ not (all_known processes rest)
  unfolding add_all
  add_all-fails [] g = refl
  add_all-fails ((name, def) ∷ rest) g =
      then_add-fails (add_deps processes name def.depends_on g) rest
        (every (λ d. has_key d processes) def.depends_on) (add_deps-fails name def.depends_on g)
        (add_all-fails rest)

  add_all-OnlyUnknown : (rest : Map ProcessDef) (g : Graph) → OnlyUnknown (add_all processes rest g)
  unfolding add_all
  add_all-OnlyUnknown [] g = tt
  add_all-OnlyUnknown ((name, def) ∷ rest) g =
      then_add-OnlyUnknown (add_deps processes name def.depends_on g) rest
        (add_deps-OnlyUnknown name def.depends_on g) (add_all-OnlyUnknown rest)

prepend-known :
    (group : List Text) (r : ConfigError ⊎ List (List Text))
    → reports_unknown (some r) ≡ false
    → reports_unknown (some (prepend group r)) ≡ false
prepend-known group (inl e) h = h
prepend-known group (inr groups) h = refl

round-known :
    (ready : List Text) (remaining : Map ℕ) (rest : Option (ConfigError ⊎ List (List Text)))
    → reports_unknown rest ≡ false
    → reports_unknown (round ready remaining rest) ≡ false
round-known [] [] rest h = refl
round-known [] (e ∷ m) rest h = refl
round-known (name ∷ names) remaining none h = refl
round-known (name ∷ names) remaining (some r) h = prepend-known _ r h

peel-known :
    (fuel : ℕ) (dependents : Map (List Text)) (remaining : Map ℕ)
    → reports_unknown (peel fuel dependents remaining) ≡ false
unfolding peel
peel-known zero dependents remaining = refl
peel-known (suc fuel) dependents remaining =
    round-known (at_zero remaining) remaining _
      (peel-known fuel dependents (finish_group dependents (at_zero remaining) remaining))

order_from-known :
    (r : ConfigError ⊎ Graph) → OnlyUnknown r → reports_unknown (order_from r) ≡ fails r
order_from-known (inl e) h = h
order_from-known (inr g) h = peel-known (length g.in_degree + 1) g.dependents g.in_degree

-- The startup order reports an unknown dependency exactly when some process depends on a name that
-- is no process; a cycle, or an order, is found only for processes whose dependencies are all there.
pub startup_order-reports_unknown :
    (processes : Map ProcessDef)
    → reports_unknown (startup_order processes) ≡ not (all_known processes processes)
unfolding startup_order
startup_order-reports_unknown processes =
    order_from-known (add_all processes processes (start_graph processes))
      (add_all-OnlyUnknown processes processes (start_graph processes))
    ∙ add_all-fails processes processes (start_graph processes)
