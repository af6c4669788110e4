-- ===== src/Examples.antt =====
-- Concrete inputs on which the theorems are applied.
pub mod Floating
pub mod Graphs
pub mod Quantities
pub mod Hooking
pub mod Threads
pub mod Resources
pub mod Clients
pub mod Sessions
pub mod Disks
pub mod Values
