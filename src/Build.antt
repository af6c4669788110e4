-- ===== src/Build.antt =====
-- The builders of the package forge.
pub mod Parameters
pub mod Artifacts
pub mod Interfaces
pub mod Shared
pub mod Env
pub mod Volumes
pub mod Containers
pub mod References
pub mod Kinds
pub mod Nodes
pub mod Sources
pub mod Presets
pub mod Retries
