-- ===== src/Dag.antt =====
-- dag.go: tasks and DAG templates.
pub mod Task
pub mod Grammar
mod Scan
pub mod Precedence
pub mod Template
pub mod Nodes
pub mod Refinement
pub mod Building
