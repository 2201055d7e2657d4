-- ===== src/Nquads.antt =====
-- Package nquads: nodes and their encoding, statements, the writer and the reader.
pub mod Node
pub mod Statement
pub mod Writer
pub mod Stream
pub mod Reader
pub mod RoundTrip
mod Tests
