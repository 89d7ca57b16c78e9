-- ===== src/Manager/Table.antt =====
-- The process table: looking a process up by name or id, and observing exits.
pub mod Laws
pub mod Keys
use agent_procs.Prelude.{
  Bool, true, false, ◌||◌, List, [], ◌∷◌, Option, none, some, Text, text_eq, if◌then◌else◌, is_some,
}
use agent_procs.Prelude.Int.{ℤ}
use agent_procs.Prelude.Maps.{Map, lookup, adjust, has_key, keys}
use agent_procs.Manager.Os.{Os, peek_exit}
use agent_procs.Manager.Types.{
  Incarnation, Life, running, exited, stopping, ExitWhy, ManagedProcess, ProcessManager,
}

-- `values().find(|p| p.id == target)`
unfoldable pub find_id : Text → Map ManagedProcess → Option ManagedProcess
find_id target [] = none
find_id target ((k, p) ∷ m) = if text_eq p.id target then some p else find_id target m

unfoldable pub find_in : Text → Map ManagedProcess → Option ManagedProcess
find_in target m = elim (lookup target m) [ some p ↦ some p | none ↦ find_id target m ]

unfoldable pub find : ProcessManager → Text → Option ManagedProcess
unfolding find_in
find m target = find_in target m.processes

-- A write through `values_mut().find(|p| p.id == target)`.
unfoldable pub adjust_id :
    Text → (ManagedProcess → ManagedProcess) → Map ManagedProcess → Map ManagedProcess
adjust_id target f [] = []
adjust_id target f ((k, p) ∷ m) =
    if text_eq p.id target then (k, f p) ∷ m else (k, p) ∷ adjust_id target f m

unfoldable pub update_in :
    Text → (ManagedProcess → ManagedProcess) → Map ManagedProcess → Map ManagedProcess
update_in target f m = if has_key target m then adjust target f m else adjust_id target f m

-- A write through `find_mut(target)`; no record is no write.
unfoldable pub update : ProcessManager → Text → (ManagedProcess → ManagedProcess) → ProcessManager
unfolding update_in
update m target f = record m { processes = update_in target f m.processes }

unfoldable pub has_process : ProcessManager → Text → Bool
unfolding find
has_process m target = is_some (find m target)

unfoldable pub names : ProcessManager → List Text
names m = keys m.processes

unfoldable pub clear : ProcessManager → ProcessManager
clear m = record m { processes = [] }

abbrev observe : Os → Incarnation → Life
observe os inc = elim (peek_exit os inc.pgid) [
  | none ↦ running inc
  | some code ↦ exited code ExitWhy.natural (some inc) false
]

-- The life of one record after the exit check, and whether it changed.
unfoldable pub refresh_life : Os → Life → Life
refresh_life os (running inc) = observe os inc
refresh_life os (exited code why inc timer) = exited code why inc timer
refresh_life os (stopping leader_exit after_stop waiters) = stopping leader_exit after_stop waiters

abbrev pub has_exited : Os → Life → Bool
has_exited os (running inc) = is_some (peek_exit os inc.pgid)
has_exited os (exited code why inc timer) = false
has_exited os (stopping leader_exit after_stop waiters) = false

unfoldable pub refresh_all : Os → Map ManagedProcess → Map ManagedProcess
unfolding refresh_life
refresh_all os [] = []
refresh_all os ((k, p) ∷ m) = (k, record p { life = refresh_life os p.life }) ∷ refresh_all os m

unfoldable pub any_exited : Os → Map ManagedProcess → Bool
any_exited os [] = false
any_exited os ((k, p) ∷ m) = has_exited os p.life || any_exited os m

-- `refresh_exit_states`: the new state, and whether any record changed.
unfoldable pub refresh_exit_states : Os → ProcessManager → ProcessManager × Bool
unfolding refresh_all any_exited
refresh_exit_states os m =
    (record m { processes = refresh_all os m.processes }, any_exited os m.processes)

abbrev exit_of : Life → Option (Option ℤ)
exit_of (running inc) = none
exit_of (exited code why inc timer) = some code
exit_of (stopping none after_stop waiters) = none
exit_of (stopping (some code) after_stop waiters) = some code

-- `is_process_exited`; it refreshes the exit states first.
unfoldable pub is_process_exited : Os → ProcessManager → Text → Option (Option ℤ) × ProcessManager
unfolding refresh_exit_states find
is_process_exited os m target =
    let m' = (refresh_exit_states os m).0 in
    (elim (find m' target) [ none ↦ none | some p ↦ exit_of p.life ], m')
