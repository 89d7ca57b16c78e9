-- ===== src/Actor/Sound/Finish.antt =====
-- A finished teardown: its record is parked, and nothing else moves.
use agent_procs.Prelude.{
  ℕ, ◌≡◌, ◌≢◌, refl, sym, subst, ◌∙◌, inl, inr, Bool, false, List, [], ◌∷◌, ◌++◌, Option, none,
  some, Text, arith, Bool-cases, ◌==◌, ==_iff,
}
use agent_procs.Prelude.Int.{ℤ}
use agent_procs.Prelude.Maps.{Map, lookup, adjust}
use agent_procs.Manager.Types.{ManagedProcess, exited, ExitWhy}
use agent_procs.Manager.Table.{find_in}
use agent_procs.Manager.Table.Laws.{
  Entries-lookup, Entries-adjust, Distinct-adjust, Entries-of_lookup, find_in-lookup,
  find_in-Reaches,
}
use agent_procs.Actor.Sound.Writes.{Good-Named}
use agent_procs.Actor.State.{StopAllBatch}
use agent_procs.Actor.Teardown.{parked}
use agent_procs.Actor.Sound.{Sound, Good, due, Covered, names_at}
use agent_procs.Actor.Sound.Tasks.{names_at_removed, due_held, All-removed}
use agent_procs.Actor.Sound.Stops.{InBudget-idle}

pub Covered-gone :
    (b : Option StopAllBatch) (k : Text) (code : Option ℤ) (why : ExitWhy) (timer : Bool)
    → Covered b k (exited code why none timer)
Covered-gone none k code why timer = tt
Covered-gone (some b) k code why timer = tt

module _ (n g : ℕ) (name : Text) (xs ys : List (Text × ℕ)) (b : Option StopAllBatch)
    (m : Map ManagedProcess) (good : Good n (xs ++ (name, g) ∷ ys) b m) where
  abbrev Before : Text → ManagedProcess → Type 0
  Before = Sound n (xs ++ (name, g) ∷ ys) b

  abbrev After : Text → ManagedProcess → Type 0
  After = Sound n (xs ++ ys) b

  kept : (k : Text) (p : ManagedProcess) → p.generation ≢ g → Before k p → After k p
  kept k p d s = record {
    named = s.named;
    issued = s.issued;
    tracked = names_at_removed p.generation g name xs ys d ∙ s.tracked;
    covered = s.covered;
    in_budget = s.in_budget;
  }

  -- A record of the task's generation is stopping under the task's name.
  pub own_task :
      (k : Text) (p : ManagedProcess)
      → p.generation ≡ g
      → Before k p
      → (due p.life k ≡ k ∷ []) × (name ≡ k) × (names_at p.generation (xs ++ ys) ≡ [])
  own_task k p e s =
      let (a, c, d) =
        due_held g name k p.life xs ys
          (subst (λ h. names_at h (xs ++ (name, g) ∷ ys) ≡ due p.life k) e s.tracked) in
      (a, c, subst (λ h. names_at h (xs ++ ys) ≡ []) (sym e) d)

  -- What `find` reaches by the task's name, if it has the task's generation, is under that name.
  pub found_under :
      (p : ManagedProcess) → find_in name m ≡ some p → p.generation ≡ g → lookup name m ≡ some p
  found_under p e same =
      let (there, once) = find_in-Reaches name m p (Good-Named _ _ _ _ good) good.distinct e in
      let own = (own_task p.name p same (Entries-lookup Before p.name m p good.sound there)).1 in
      subst (λ i. lookup i m ≡ some p) (sym own) there

  -- A task that finds no record of its generation leaves nothing behind.
  pub Good-ignored :
      ((p : ManagedProcess) → find_in name m ≡ some p → p.generation ≢ g) → Good n (xs ++ ys) b m
  Good-ignored other = record {
    distinct = good.distinct;
    sound = Entries-of_lookup After m good.distinct each;
    bounded = All-removed n g name xs ys good.bounded;
  }
    where
      each : (k : Text) (p : ManagedProcess) → lookup k m ≡ some p → After k p
      each k p e =
          let s = Entries-lookup Before k m p good.sound e in
          elim (Bool-cases (p.generation == g)) [
            | inl same ↦
                let same' = (==_iff p.generation g).0 same in
                let own = (own_task k p same' s).1 in
                absurd (
                  other p (find_in-lookup name m p (subst (λ i. lookup i m ≡ some p) (sym own) e))
                    same')
            | inr diff ↦ kept k p (λ h. ground (arith, ==_iff p.generation g)) s
          ]

  -- The record of the task is parked.
  pub Good-parked :
      (code : Option ℤ) (p : ManagedProcess)
      → lookup name m ≡ some p
      → p.generation ≡ g
      → Good n (xs ++ ys) b (adjust name (parked code) m)
  Good-parked code p e same = record {
    distinct = Distinct-adjust name (parked code) m p good.distinct e (inl refl);
    sound =
        Entries-adjust Before After name (parked code) m p
          (λ j q d s. kept j q (λ h. d (h ∙ sym same)) s) good.distinct good.sound e own;
    bounded = All-removed n g name xs ys good.bounded;
  }
    where
      own : Before name p → After name (parked code p)
      own s = record {
        named = s.named;
        issued = s.issued;
        tracked = (own_task name p same s).2;
        covered = Covered-gone b name code ExitWhy.manual false;
        in_budget = InBudget-idle p.restart_policy p.restart_count p.life _ s.in_budget refl;
      }
