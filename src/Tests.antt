-- ===== src/Tests.antt =====
-- Concrete instances of the theorems.
pub mod Rings
pub mod Memory
pub mod Files
pub mod Flash
pub mod Tasks
pub mod Turns
pub mod Timers
pub mod Controller
pub mod Tables
pub mod Paths
pub mod Inodes
pub mod Programs
pub mod Starting
pub mod Opening
