-- ===== src/Actor/Safety.antt =====
-- What holds of the actor at every moment of a run.
use agent_procs.Prelude.{
  ℕ, ◌≤◌, ◌≡◌, ◌≢◌, sym, subst, ap, ◌∙◌, inl, inr, [], ◌∷◌, Option, none, some, Text,
}
use agent_procs.Prelude.Maps.{Map, lookup}
use agent_procs.Protocol.{RestartPolicy}
use agent_procs.Manager.Types.{ManagedProcess, Life}
use agent_procs.Manager.Table.Laws.{Entries-lookup, Distinct, lookup_cases}
use agent_procs.Actor.State.{Actor, StopAllBatch}
use agent_procs.Actor.Run.{Reached, Reached-Returns}
use agent_procs.Actor.Sound.{Sound, names_at, due, Covered, InBudget, UnderMax}

Reached-Sound :
    (session : Text) (a : Actor) (k : Text) (p : ManagedProcess)
    → Reached session (some a)
    → lookup k a.pm.processes ≡ some p
    → Sound a.pm.next_generation a.tasks a.stop_all k p
Reached-Sound session a k p r e =
    Entries-lookup (Sound a.pm.next_generation a.tasks a.stop_all) k a.pm.processes p
      (Reached-Returns session (some a) r).sound e

-- However requests, ticks and finished teardowns are interleaved, no turn of the actor's loop
-- panics, as long as generations are left and each timer's or watcher's message carries the name
-- of its record.
pub never_panics : (session : Text) (o : Option Actor) → Reached session o → o ≢ none
never_panics session none r e = Reached-Returns session none r
never_panics session (some a) r e = absurd (cc)

-- At every moment of a run, the teardown tasks of a record's generation are one task under its
-- name while the record is stopping, and none otherwise.
pub one_task_while_stopping :
    (session : Text) (a : Actor) (k : Text) (p : ManagedProcess)
    → Reached session (some a)
    → lookup k a.pm.processes ≡ some p
    → names_at p.generation a.tasks ≡ due p.life k
one_task_while_stopping session a k p r e = (Reached-Sound session a k p r e).tracked

-- At every moment of a run, while a stop-all runs, every record either has no incarnation left, or
-- is stopping, will be parked, and is among the names that the stop-all waits for.
pub stop_all_covers :
    (session : Text) (a : Actor) (b : StopAllBatch) (k : Text) (p : ManagedProcess)
    → Reached session (some a)
    → a.stop_all ≡ some b
    → lookup k a.pm.processes ≡ some p
    → Covered (some b) k p.life
stop_all_covers session a b k p r busy e =
    subst (λ x. Covered x k p.life) busy (Reached-Sound session a k p r e).covered

within :
    (rp : RestartPolicy) (max count : ℕ) (life : Life)
    → rp.max_restarts ≡ some max
    → InBudget (some rp) count life
    → count ≤ max
within rp max count life e b = (subst (λ m. UnderMax m count life) e b).0

-- At every moment of a run, the restart count of a record with a maximum of restarts is at most that
-- maximum.
pub restarts_within_max :
    (session : Text) (a : Actor) (k : Text) (p : ManagedProcess) (rp : RestartPolicy) (max : ℕ)
    → Reached session (some a)
    → lookup k a.pm.processes ≡ some p
    → p.restart_policy ≡ some rp
    → rp.max_restarts ≡ some max
    → p.restart_count ≤ max
restarts_within_max session a k p rp max r e policy limit =
    within rp max p.restart_count p.life limit (
      subst (λ x. InBudget x p.restart_count p.life) policy
        (Reached-Sound session a k p r e).in_budget)

Distinct-lookup :
    (m : Map ManagedProcess) (j k : Text) (p q : ManagedProcess)
    → Distinct m
    → lookup j m ≡ some p
    → lookup k m ≡ some q
    → p.generation ≡ q.generation
    → j ≡ k
unfolding lookup
Distinct-lookup [] j k p q d e e' g = absurd (cc)
Distinct-lookup ((i, r) ∷ m) j k p q d e e' g = elim (lookup_cases j i r p m e) [
  | inl (_, ij, rp) ↦ elim (lookup_cases k i r q m e') [
    | inl (_, ik, rq) ↦ sym ij ∙ ik
    | inr (_, later) ↦ absurd (
        Entries-lookup (λ x s. s.generation ≢ r.generation) k m q d.1 later
          (sym g ∙ ap (λ s. s.generation) (sym rp)))
  ]
  | inr (_, later) ↦ elim (lookup_cases k i r q m e') [
    | inl (_, ik, rq) ↦ absurd (
        Entries-lookup (λ x s. s.generation ≢ r.generation) j m p d.1 later
          (g ∙ ap (λ s. s.generation) (sym rq)))
    | inr (_, later') ↦ Distinct-lookup m j k p q d.2 later later' g
  ]
]

-- At every moment of a run, two records under different names have different generations.
pub one_record_per_generation :
    (session : Text) (a : Actor) (j k : Text) (p q : ManagedProcess)
    → Reached session (some a)
    → lookup j a.pm.processes ≡ some p
    → lookup k a.pm.processes ≡ some q
    → p.generation ≡ q.generation
    → j ≡ k
one_record_per_generation session a j k p q r =
    Distinct-lookup a.pm.processes j k p q (Reached-Returns session (some a) r).distinct
