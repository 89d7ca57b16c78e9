-- ===== src/Tui.antt =====
-- src/tui/app.rs: the state of the terminal interface.
pub mod Buffer
pub mod Disk
pub mod App
pub mod Keys
pub mod Events
