-- ===== src/Bloom.antt =====
-- landro-daemon/src/bloom_diff.rs: Bloom filters, and the exchange of summaries that uses them.
pub mod Filter
mod Bits
pub mod Members
pub mod Handler
pub mod Exchange
pub mod Progress
pub mod Compression
mod Tests
