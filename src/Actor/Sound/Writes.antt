-- ===== src/Actor/Sound/Writes.antt =====
-- Writes that change neither name nor generation.
use agent_procs.Prelude.{ℕ, ◌≡◌, List, Option, Text}
use agent_procs.Prelude.Maps.{Map}
use agent_procs.Manager.Types.{ManagedProcess}
use agent_procs.Manager.Table.{update_in}
use agent_procs.Manager.Table.Laws.{Entries-update, Entries-map, Distinct-update, Named}
use agent_procs.Actor.State.{StopAllBatch}
use agent_procs.Actor.Sound.{Sound, Good}

pub Good-Named :
    (n : ℕ) (ts : List (Text × ℕ)) (b : Option StopAllBatch) (m : Map ManagedProcess)
    → Good n ts b m
    → Named m
Good-Named n ts b m g = Entries-map (Sound n ts b) (λ k p. p.name ≡ k) m (λ k p s. s.named) g.sound

pub Good-update :
    (n : ℕ) (ts : List (Text × ℕ)) (b : Option StopAllBatch) (t : Text)
    (f : ManagedProcess → ManagedProcess) (m : Map ManagedProcess)
    → ((p : ManagedProcess) → (f p).generation ≡ p.generation)
    → ((k : Text) (p : ManagedProcess) → Sound n ts b k p → Sound n ts b k (f p))
    → Good n ts b m
    → Good n ts b (update_in t f m)
Good-update n ts b t f m kept keep g = record {
  distinct = Distinct-update t f m kept g.distinct;
  sound = Entries-update (Sound n ts b) f keep t m g.sound;
  bounded = g.bounded;
}
