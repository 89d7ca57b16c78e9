-- ===== src/Tui/Disk.antt =====
-- src/tui/disk_log_reader.rs: windows of a process's log files, by their indexes.
pub mod Segment
pub mod Discover
pub mod Merge
pub mod Scan
pub mod Spans
pub mod Lookup
pub mod Fresh
