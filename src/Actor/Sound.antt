-- ===== src/Actor/Sound.antt =====
-- The invariant of the actor, and the writes to the process table that keep it.
pub mod Writes
pub mod Refresh
pub mod Stops
pub mod Handlers
pub mod Tasks
pub mod Finish
pub mod Spawns
pub mod Watch
pub mod Settle
pub mod Answers
pub mod Sweep
pub mod Timers
use agent_procs.Prelude.{
  ℕ, ◌≤◌, ◌<◌, ◌≡◌, Bool, true, false, List, [], ◌∷◌, Option, none, some, Text, text_eq, ◌==◌,
  if◌then◌else◌, exists, All,
}
use agent_procs.Prelude.Maps.{Map}
use agent_procs.Protocol.{RestartPolicy}
use agent_procs.Manager.Types.{Life, running, exited, stopping, park, ManagedProcess}
use agent_procs.Manager.Table.Laws.{Entries, Distinct}
use agent_procs.Actor.State.{Actor, StopAllBatch}
use agent_procs.Actor.Commands.{is_due}

-- The names of the teardown tasks of one generation.
abbrev pub names_at : ℕ → List (Text × ℕ) → List Text
names_at g [] = []
names_at g ((name, h) ∷ ts) = let rest = names_at g ts in if h == g then name ∷ rest else rest

-- A record under `k` waits for one teardown task exactly while it is stopping.
abbrev pub due : Life → Text → List Text
due (running inc) k = []
due (exited code why inc timer) k = []
due (stopping leader_exit after_stop waiters) k = k ∷ []

abbrev pub listed : Text → List Text → Bool
listed k = exists (λ n. text_eq n k)

-- While a stop-all runs, a record is either parked for good once its teardown ends, or has no
-- incarnation left.
abbrev pub Covered : Option StopAllBatch → Text → Life → Type 0
Covered none k life = Unit
Covered (some b) k (running inc) = ⊥
Covered (some b) k (exited code why none timer) = Unit
Covered (some b) k (exited code why (some inc) timer) = ⊥
Covered (some b) k (stopping leader_exit after_stop waiters) =
    (after_stop ≡ park) × (listed k b.remaining ≡ true)

abbrev pub UnderMax : Option ℕ → ℕ → Life → Type 0
UnderMax none count life = Unit
UnderMax (some max) count life = (count ≤ max) × (is_due life ≡ true → count < max)

-- The automatic restarts stay within the policy's maximum.
abbrev pub InBudget : Option RestartPolicy → ℕ → Life → Type 0
InBudget none count life = Unit
InBudget (some rp) count life = UnderMax rp.max_restarts count life

pub record Sound (n : ℕ) (tasks : List (Text × ℕ)) (batch : Option StopAllBatch) (k : Text)
    (p : ManagedProcess) : Type 0 where
  pub named : p.name ≡ k
  pub issued : p.generation ≤ n
  pub tracked : names_at p.generation tasks ≡ due p.life k
  pub covered : Covered batch k p.life
  pub in_budget : InBudget p.restart_policy p.restart_count p.life

pub record Good (n : ℕ) (tasks : List (Text × ℕ)) (batch : Option StopAllBatch)
    (m : Map ManagedProcess) : Type 0 where
  pub distinct : Distinct m
  pub sound : Entries (Sound n tasks batch) m
  pub bounded : All (λ t. t.1 ≤ n) tasks

abbrev pub Inv : Actor → Type 0
Inv a = Good a.pm.next_generation a.tasks a.stop_all a.pm.processes

-- The operation does not panic, and its result satisfies `P`.
abbrev pub Returns : (Actor → Type 0) → Option Actor → Type 0
Returns P none = ⊥
Returns P (some a) = P a
