-- ===== src/Model.antt =====
-- The serialisable types of the package model.
pub mod Basic
pub mod Artifacts
pub mod Volumes
pub mod Containers
pub mod Templates
pub mod Workflows
pub mod Numbers
pub mod Policies
pub mod Reading
