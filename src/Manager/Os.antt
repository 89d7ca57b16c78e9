-- ===== src/Manager/Os.antt =====
-- What one step of the daemon asks of the system: answers of the kernel, the file system, the clock
-- and the watcher library, all of them arbitrary.
use agent_procs.Prelude.{ℕ, Bool, List, Option, none, some, ◌⊎◌, Text, ltb, if◌then◌else◌, ◌&&◌}
use agent_procs.Prelude.Int.{ℤ}
use agent_procs.Prelude.Maps.{Map}

-- The outcome of `waitid(P_PID, .., WEXITED | WNOHANG | WNOWAIT)`.
pub data WaitId : Type 0 where
  no_child : WaitId  -- ECHILD
  failed : WaitId  -- any other error
  alive : WaitId  -- success, with si_pid = 0
  exited : (status : ℤ) → WaitId  -- CLD_EXITED
  signalled : WaitId

-- The `Command` handed to `spawn`.
pub record Command : Type 0 where
  pub shell : Text
  pub dir : Option Text
  pub envs : Map Text

pub record Os : Type 0 where
  pub waitid : ℕ → WaitId
  pub create_file : Text → Option Text  -- the error, if any
  pub spawn : Command → Text ⊎ Option ℕ  -- the error, or the child's id
  pub can_bind : ℕ → Bool
  pub create_watcher : List Text → Option (List Text) → Text → Option Text  -- the error, if any
  pub now : ℕ
  pub log_dir : Text

-- `Pgid::peek_exit`: `some code` when the leader is gone, with no code after a signal.
unfoldable pub peek_exit : Os → ℕ → Option (Option ℤ)
peek_exit os pgid = elim (os.waitid pgid) [
  | no_child ↦ some none
  | failed ↦ none
  | alive ↦ none
  | exited status ↦ some (some status)
  | signalled ↦ some none
]

-- `Pgid::from_child`: an `i32` that is not zero.
unfoldable pub pgid_from_child : Option ℕ → Option ℕ
pgid_from_child none = none
pgid_from_child (some id) = if ltb 0 id && ltb id 2147483648 then some id else none
