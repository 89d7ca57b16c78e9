-- ===== src/Manager.antt =====
-- src/daemon/process_manager.rs, a child for each part of it.
pub mod Os
pub mod Types
pub mod Names
pub mod Table
pub mod Spawn
pub mod Status
pub mod Restarts
