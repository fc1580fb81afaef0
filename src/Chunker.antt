-- ===== src/Chunker.antt =====
-- landro-chunker/src/chunker.rs: content-defined chunking.
pub mod Config
pub mod Boundary
pub mod Split
pub mod Cover
pub mod Stream
mod Shift
pub mod Locality
pub mod Match
pub mod Setup
mod Tests
