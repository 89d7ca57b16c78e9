-- ===== src/Actor.antt =====
-- src/daemon/actor.rs: the one task that owns the processes and serves commands in turn.
pub mod State
pub mod Teardown
pub mod Commands
pub mod Sound
pub mod Run
pub mod Safety
pub mod Routes
pub mod Cleared
pub mod Supersede
