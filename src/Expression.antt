-- ===== src/Expression.antt =====
-- Package expr: expressions, and the literals in them.
pub mod Terms
pub mod Literals
pub mod References
