-- ===== src/Nquads/RoundTrip.antt =====
-- The reader on what the encoders of nquads/literals.go and the writer produce.
pub mod Escapes
pub mod Terms
pub mod Suffixes
pub mod Blanks
pub mod Objects
pub mod Quads
pub mod Iris
