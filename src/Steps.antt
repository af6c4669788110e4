-- ===== src/Steps.antt =====
-- steps.go: steps, and templates of steps in groups.
pub mod Template
pub mod Nodes
pub mod Groups
