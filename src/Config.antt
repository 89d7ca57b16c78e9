-- ===== src/Config.antt =====
-- src/config.rs: the order in which the processes of a project are started.
pub mod Laws
pub mod Errors
use agent_procs.Prelude.{
  ℕ, zero, suc, ◌+◌, ◌-◌, Bool, true, false, List, [], ◌∷◌, ◌++◌, map, Option, none, some, ◌⊎◌, inl,
  inr, Text, text_eq, ◌==◌, if◌then◌else◌, length,
}
use agent_procs.Prelude.Maps.{Map, lookup, insert, adjust, remove, has_key, keys}
use agent_procs.Prelude.Sort.{sort_by}

pub record ProcessDef : Type 0 where
  pub cmd : Text
  pub cwd : Option Text
  pub env : Map Text
  pub ready : Option Text
  pub depends_on : List Text
  pub port : Option ℕ
  pub autorestart : Option Text
  pub max_restarts : Option ℕ
  pub restart_delay : Option ℕ
  pub watch : Option (List Text)
  pub watch_ignore : Option (List Text)

-- The two errors of `startup_order`.
pub data ConfigError : Type 0 where
  unknown_dep : (from to : Text) → ConfigError
  cycle_detected : ConfigError

-- `dependents` and `in_degree`.
pub record Graph : Type 0 where
  pub in_degree : Map ℕ
  pub dependents : Map (List Text)

abbrev pub dependents_of : Map (List Text) → Text → List Text
dependents_of ds k = elim (lookup k ds) [ none ↦ [] | some xs ↦ xs ]

abbrev add_edge : Text → Text → Graph → Graph
add_edge name dep g = record {
  in_degree = elim (lookup name g.in_degree) [
    | none ↦ insert name 1 g.in_degree
    | some d ↦ insert name (d + 1) g.in_degree
  ];
  dependents = insert dep (dependents_of g.dependents dep ++ name ∷ []) g.dependents;
}

-- The inner `for` loop over the dependencies of `name`.
unfoldable pub add_deps : Map ProcessDef → Text → List Text → Graph → ConfigError ⊎ Graph
add_deps processes name [] g = inr g
add_deps processes name (dep ∷ deps) g =
    if has_key dep processes
    then add_deps processes name deps (add_edge name dep g)
    else inl (ConfigError.unknown_dep name dep)

unfoldable pub add_all : Map ProcessDef → Map ProcessDef → Graph → ConfigError ⊎ Graph
unfolding add_deps
add_all processes [] g = inr g
add_all processes ((name, def) ∷ rest) g = elim (add_deps processes name def.depends_on g) [
  | inl e ↦ inl e
  | inr h ↦ add_all processes rest h
]

abbrev pub at_zero : Map ℕ → List Text
at_zero [] = []
at_zero ((k, d) ∷ m) = if d == 0 then k ∷ at_zero m else at_zero m

-- `*deg -= 1` for each dependent that remains.
abbrev pub decrement : List Text → Map ℕ → Map ℕ
decrement [] remaining = remaining
decrement (d ∷ ds) remaining = decrement ds (adjust d (λ n. n - 1) remaining)

-- The `for name in &ready` loop.
unfoldable pub finish_group : Map (List Text) → List Text → Map ℕ → Map ℕ
finish_group dependents [] remaining = remaining
finish_group dependents (name ∷ names) remaining =
    finish_group dependents names
      (decrement (dependents_of dependents name) (remove name remaining))

abbrev pub prepend : List Text → ConfigError ⊎ List (List Text) → ConfigError ⊎ List (List Text)
prepend group (inl e) = inl e
prepend group (inr groups) = inr (group ∷ groups)

-- One round of the `loop`, given what the later rounds return.
abbrev pub round :
    List Text
    → Map ℕ
    → Option (ConfigError ⊎ List (List Text))
    → Option (ConfigError ⊎ List (List Text))
round [] [] rest = some (inr [])
round [] (e ∷ m) rest = some (inl ConfigError.cycle_detected)
round (name ∷ names) remaining none = none
round (name ∷ names) remaining (some r) = some (prepend (sort_by (λ n. n) (name ∷ names)) r)

-- The `loop`, on fuel; `none` is out of fuel.
unfoldable pub peel : ℕ → Map (List Text) → Map ℕ → Option (ConfigError ⊎ List (List Text))
unfolding finish_group
peel zero dependents remaining = none
peel (suc fuel) dependents remaining =
    let ready = at_zero remaining in
    let rest = peel fuel dependents (finish_group dependents ready remaining) in
    round ready remaining rest

abbrev pub start_graph : Map ProcessDef → Graph
start_graph processes = record { in_degree = map (λ e. (e.0, 0)) processes; dependents = [] }

abbrev pub order_from : ConfigError ⊎ Graph → Option (ConfigError ⊎ List (List Text))
order_from (inl e) = some (inl e)
order_from (inr g) = peel (length g.in_degree + 1) g.dependents g.in_degree

unfoldable pub startup_order : Map ProcessDef → Option (ConfigError ⊎ List (List Text))
startup_order processes = order_from (add_all processes processes (start_graph processes))
