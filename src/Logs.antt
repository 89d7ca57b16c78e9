-- ===== src/Logs.antt =====
-- src/daemon/log_index.rs and src/daemon/log_writer.rs: the captured output of the processes.
pub mod Index
pub mod IndexLaws
pub mod Lines
pub mod Entries
pub mod Writer
pub mod Files
