-- ===== src/Sparql.antt =====
-- Package sparql: literals and query templates.
pub mod Literals
pub mod Terms
pub mod Query
pub mod Client
mod Tests
