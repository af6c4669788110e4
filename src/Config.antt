-- ===== src/Config.antt =====
-- Package config: the configuration, the hooks that can be named, and their laws.
pub mod Global
pub mod Named
pub mod Hooks
pub mod Dispatching
pub mod Passing
pub mod Filling
pub mod Defaults
pub mod Redaction
pub mod Getters
pub mod Locked
