-- ===== src/Client.antt =====
-- Package client: the names of resources and the paths that are made of them.
pub mod Names
pub mod Subdomain
pub mod Paths
pub mod Logging
pub mod Service
pub mod Transport
pub mod Requests
pub mod Bounded
pub mod Endless
pub mod Operations
pub mod Exchanges
pub mod Calls
pub mod Runs
pub mod Answers
pub mod Submission
pub mod Quiet
pub mod Silence
pub mod Tokens
pub mod Redaction
