-- ===== src/Actor/Sound/Refresh.antt =====
-- Observing exits keeps the invariant.
use agent_procs.Prelude.{ℕ, ◌≡◌, refl, List, [], ◌∷◌, Option, none, Text, arith}
use agent_procs.Prelude.Maps.{Map, lookup}
use agent_procs.Manager.Os.{Os}
use agent_procs.Manager.Types.{ManagedProcess, Life, running, exited, stopping}
use agent_procs.Manager.Table.{refresh_life, refresh_all, refresh_exit_states}
use agent_procs.Manager.Table.Laws.{Entries, Distinct, Avoids}
use agent_procs.Actor.State.{Actor, StopAllBatch, refresh}
use agent_procs.Actor.Sound.{Sound, Inv, due}

lookup-refresh_none :
    (os : Os) (k : Text) (m : Map ManagedProcess)
    → lookup k m ≡ none
    → lookup k (refresh_all os m) ≡ none
unfolding lookup refresh_all
lookup-refresh_none os k [] h = refl
lookup-refresh_none os k ((j, q) ∷ m) h = ground (arith, lookup-refresh_none os k m)

Avoids-refresh :
    (os : Os) (g : ℕ) (m : Map ManagedProcess) → Avoids g m → Avoids g (refresh_all os m)
unfolding refresh_all
Avoids-refresh os g [] a = tt
Avoids-refresh os g ((j, q) ∷ m) a = (a.0, Avoids-refresh os g m a.1)

Distinct-refresh : (os : Os) (m : Map ManagedProcess) → Distinct m → Distinct (refresh_all os m)
unfolding refresh_all
Distinct-refresh os [] d = tt
Distinct-refresh os ((j, q) ∷ m) d = (
  lookup-refresh_none os j m d.0,
  Avoids-refresh os q.generation m d.1,
  Distinct-refresh os m d.2,
)

module _ (n : ℕ) (ts : List (Text × ℕ)) (b : Option StopAllBatch) (os : Os) where
  due-refresh : (k : Text) (life : Life) → due (refresh_life os life) k ≡ due life k
  unfolding refresh_life
  due-refresh k (running inc) = ground arith
  due-refresh k (exited code why inc timer) = refl
  due-refresh k (stopping leader_exit after_stop waiters) = refl

  Sound-refresh :
      (k : Text) (p : ManagedProcess)
      → Sound n ts b k p
      → Sound n ts b k (record p { life = refresh_life os p.life })
  unfolding refresh_life
  Sound-refresh k p s = ground (arith, due-refresh k p.life)

  Sound-refresh_all :
      (m : Map ManagedProcess)
      → Entries (Sound n ts b) m
      → Entries (Sound n ts b) (refresh_all os m)
  unfolding refresh_all
  Sound-refresh_all [] h = tt
  Sound-refresh_all ((j, q) ∷ m) h = (Sound-refresh j q h.0, Sound-refresh_all m h.1)

pub Inv-refresh : (os : Os) (a : Actor) → Inv a → Inv (refresh os a)
unfolding refresh refresh_exit_states
Inv-refresh os a g = record {
  distinct = Distinct-refresh os a.pm.processes g.distinct;
  sound = Sound-refresh_all a.pm.next_generation a.tasks a.stop_all os a.pm.processes g.sound;
  bounded = g.bounded;
}
