-- ===== src/Serialize.antt =====
-- Package serialize: documents, paths, and files in a directory.
pub mod Filepath
pub mod Documents
pub mod Files
pub mod Segments
pub mod Relative
pub mod Contained
pub mod Writing
pub mod Cluster
