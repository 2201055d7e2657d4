-- ===== src/Server.antt =====
-- Package server: the first server, which keeps each resource in a file of its own.
pub mod HeaderParser
pub mod Entry
pub mod Paths
pub mod Files
pub mod Nonces
pub mod Domains
pub mod Authenticator
pub mod Challenges
pub mod Writing
pub mod Handlers
pub mod Serve
mod Tests
