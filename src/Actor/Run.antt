-- ===== src/Actor/Run.antt =====
-- The runs of the actor: requests, refresh ticks and finished teardowns in any order. Every step
-- has an operating system of its own, since the children move between two steps.
use agent_procs.Prelude.{ℕ, ◌+◌, ◌^◌, ◌<◌, ◌≡◌, List, ◌∷◌, ◌++◌, Option, some, Text}
use agent_procs.Prelude.Int.{ℤ}
use agent_procs.Manager.Os.{Os}
use agent_procs.Manager.Types.{new_manager}
use agent_procs.Actor.State.{Actor, PmCommand, new_actor}
use agent_procs.Actor.Commands.{handle_command, tick}
use agent_procs.Actor.Sound.{Inv, Returns}
use agent_procs.Actor.Sound.Handlers.{
  IssuedFor, Returns-stop, Returns-restart, Returns-auto_restart, Returns-watch_restart,
  Inv-publish,
}
use agent_procs.Actor.Sound.Answers.{Inv-spawn, Inv-status, Inv-exited, Inv-enable_proxy}
use agent_procs.Actor.Sound.Settle.{Returns-finish}
use agent_procs.Actor.Sound.Sweep.{Returns-stop_all}
use agent_procs.Actor.Sound.Timers.{Inv-tick}

-- The generations of the manager are not used up.
abbrev pub Room : Actor → Type 0
Room a = a.pm.next_generation + 1 < 2 ^ 64

-- A request of a client, or the message of a timer or a watcher that the actor started.
abbrev pub Asked : PmCommand → Actor → Type 0
Asked (PmCommand.auto_restart name generation) a = IssuedFor name generation a
Asked (PmCommand.watch_restart name generation) a = IssuedFor name generation a
Asked (PmCommand.stop_finished name generation code) a = ⊥
Asked _ a = Unit {0}

-- One turn of the actor's loop; a finished task is one that was started.
pub data Step : Actor → Option Actor → Type 0 where
  asked :
      (os : Os) (a : Actor) (c : PmCommand) → Asked c a → Room a → Step a (handle_command os c a)
  refreshed : (os : Os) (a : Actor) → Step a (some (tick os a))
  finished :
      (os : Os) (a : Actor) (xs ys : List (Text × ℕ)) (name : Text) (g : ℕ) (code : Option ℤ)
      → a.tasks ≡ xs ++ (name, g) ∷ ys
      → Room a
      → Step a
          (handle_command os (PmCommand.stop_finished name g code) (record a { tasks = xs ++ ys }))

-- What the actor may have become; `none` is a panic.
pub data Reached (session : Text) : Option Actor → Type 0 where
  started : Reached session (some (new_actor session))
  then : (a : Actor) (o : Option Actor) → Reached session (some a) → Step a o → Reached session o

Returns-Asked :
    (os : Os) (c : PmCommand) (a : Actor)
    → Asked c a
    → Room a
    → Inv a
    → Returns Inv (handle_command os c a)
unfolding handle_command
Returns-Asked os (PmCommand.spawn command name cwd env port restart watch reply) a h room g =
    Inv-spawn os command name cwd env port restart watch reply a room g
Returns-Asked os (PmCommand.stop target reply) a h room g = Returns-stop os target reply a g
Returns-Asked os (PmCommand.stop_all reply) a h room g = Returns-stop_all os reply a g
Returns-Asked os (PmCommand.restart target reply) a h room g = Returns-restart os target reply a g
Returns-Asked os (PmCommand.status reply) a h room g = Inv-status os a g
Returns-Asked os (PmCommand.status_snapshot reply) a h room g = Inv-status os a g
Returns-Asked os (PmCommand.has_process target reply) a h room g = g
Returns-Asked os (PmCommand.session_name reply) a h room g = g
Returns-Asked os (PmCommand.is_process_exited target reply) a h room g =
    Inv-publish _ (Inv-exited os target a g)
Returns-Asked os (PmCommand.enable_proxy port reply) a h room g = Inv-enable_proxy port reply a g
Returns-Asked os (PmCommand.subscribe reply) a h room g = g
Returns-Asked os (PmCommand.auto_restart name generation) a h room g =
    Returns-auto_restart name generation a h g
Returns-Asked os (PmCommand.watch_restart name generation) a h room g =
    Returns-watch_restart name generation a h g
Returns-Asked os (PmCommand.stop_finished name generation code) a h room g = absurd h

Returns-Step : (a : Actor) (o : Option Actor) → Step a o → Inv a → Returns Inv o
unfolding handle_command
Returns-Step _ _ (asked os a c h room) g = Returns-Asked os c a h room g
Returns-Step _ _ (refreshed os a) g = Inv-tick os a g
Returns-Step _ _ (finished os a xs ys name g' code e room) g =
    Returns-finish os name g' code a xs ys e room g

Inv-new : (session : Text) → Inv (new_actor session)
unfolding new_actor new_manager
Inv-new session = record { distinct = tt; sound = tt; bounded = tt }

pub Reached-Returns : (session : Text) (o : Option Actor) → Reached session o → Returns Inv o
Reached-Returns session _ started = Inv-new session
Reached-Returns session _ (then a o r s) = Returns-Step a o s (Reached-Returns session (some a) r)
