-- ===== src/Server2/Bundle.antt =====
-- server2/bundle.go: the SPARQL update that a bundle's graph is turned into.
pub mod Runs
pub mod Confined
pub mod Tree
pub mod Grouped
pub mod Inserter
pub mod Statements
