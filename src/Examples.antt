-- ===== src/Examples.antt =====
-- Concrete runs of the modelled code.
mod Runs
mod Stops
mod Pieces
mod Order
mod Disk
mod Screen
mod Capture
mod Waits
