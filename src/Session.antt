-- ===== src/Session.antt =====
-- src/session.rs: the ids of the processes of one daemon.
use agent_procs.Prelude.{ℕ, ◌+◌, ◌%◌, ◌^◌, ◌++◌, Text, bytes, decimal}

pub record IdCounter : Type 0 where
  pub next_id : ℕ  -- u32

unfoldable pub new_counter : IdCounter
new_counter = record { next_id = 1 }

-- `IdCounter::next_id`
unfoldable pub take_id : IdCounter → Text × IdCounter
take_id c = (bytes "p" ++ decimal c.next_id, record { next_id = (c.next_id + 1) % 2 ^ 32 })
