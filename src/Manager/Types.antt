-- ===== src/Manager/Types.antt =====
-- The records of src/daemon/process_manager.rs. A reply channel is the number of the request it
-- answers; the child, its capture tasks and their cancel switch are not modelled.
use agent_procs.Prelude.{ℕ, ◌+◌, ◌%◌, ◌^◌, Bool, true, false, List, [], Option, none, some, Text}
use agent_procs.Prelude.Int.{ℤ}
use agent_procs.Prelude.Maps.{Map}
use agent_procs.Protocol.{RestartPolicy, WatchConfig}
use agent_procs.Session.{IdCounter, new_counter}
use agent_procs.Ports.{PortAllocator, new_allocator}

pub record Incarnation : Type 0 where
  pub pgid : ℕ
  pub supervisor_tx : Option Text  -- the process whose log it writes to

pub data ExitWhy : Type 0 where
  natural manual exhausted spawn_failed : ExitWhy

pub data RespawnReason : Type 0 where
  manual auto watch : RespawnReason

pub data AfterStop : Type 0 where
  park : AfterStop
  respawn : RespawnReason → AfterStop

pub data Waiter : Type 0 where
  stop : ℕ → Waiter
  restart : ℕ → Waiter

pub data Life : Type 0 where
  running : Incarnation → Life
  exited :
      (code : Option ℤ) (why : ExitWhy) (inc : Option Incarnation) (restart_timer : Bool) → Life
  stopping :
      (leader_exit : Option (Option ℤ)) (after_stop : AfterStop) (waiters : List Waiter) → Life

abbrev pub vacant : Life
vacant = exited none ExitWhy.spawn_failed none false

unfoldable pub holds_port : Life → Bool
holds_port (running inc) = true
holds_port (exited code why inc timer) = false
holds_port (stopping leader_exit after_stop waiters) = true

unfoldable pub leader_alive : Life → Bool
leader_alive (running inc) = true
leader_alive (exited code why inc timer) = false
leader_alive (stopping none after_stop waiters) = true
leader_alive (stopping (some code) after_stop waiters) = false

pub record ManagedProcess : Type 0 where
  pub name : Text
  pub id : Text
  pub command : Text
  pub cwd : Option Text
  pub env : Map Text
  pub pid : ℕ
  pub started_at : ℕ
  pub port : Option ℕ
  pub restart_policy : Option RestartPolicy
  pub watch_config : Option WatchConfig
  pub restart_count : ℕ  -- u32
  pub generation : ℕ  -- u64
  pub life : Life
  pub watch_handle : Bool  -- whether a watcher runs

abbrev inc_supervisor : Life → Option Text
inc_supervisor (running inc) = inc.supervisor_tx
inc_supervisor (exited code why (some inc) timer) = inc.supervisor_tx
inc_supervisor (exited code why none timer) = none
inc_supervisor (stopping leader_exit after_stop waiters) = none

unfoldable pub supervisor_tx : ManagedProcess → Option Text
supervisor_tx p = inc_supervisor p.life

pub record ProcessManager : Type 0 where
  pub processes : Map ManagedProcess
  pub id_counter : IdCounter
  pub next_generation : ℕ  -- u64
  pub session : Text
  pub port_allocator : PortAllocator

unfoldable pub new_manager : Text → ProcessManager
unfolding new_counter new_allocator
new_manager session = record {
  processes = [];
  id_counter = new_counter;
  next_generation = 0;
  session = session;
  port_allocator = new_allocator;
}

unfoldable pub bump_generation : ProcessManager → ProcessManager
bump_generation m = record m { next_generation = (m.next_generation + 1) % 2 ^ 64 }
