-- ===== src/Server2.antt =====
-- Package server2: URLs and their parents, the access rule, and the import of bundles.
pub mod Posting
pub mod Keygen
pub mod Serve
pub mod Url
pub mod Parents
pub mod Auth
pub mod Access
pub mod Response
pub mod Query
pub mod Resources
pub mod Bundle
mod Tests
