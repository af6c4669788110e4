-- ===== src/Units.antt =====
-- validate/units.go: resource quantities.
pub mod Pattern
pub mod Language
pub mod Resources
pub mod Laws
