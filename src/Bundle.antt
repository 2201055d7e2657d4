-- ===== src/Bundle.antt =====
-- Package bundle and the command swbundle: zip archives that hold files under the hashes of their
-- contents, and an N-Quads text that describes them.
pub mod Writer
pub mod Reader
pub mod Command
pub mod Stored
pub mod Lines
pub mod Yields
pub mod Texts
pub mod Headers
pub mod RoundTrip
pub mod Memory
mod Tests
