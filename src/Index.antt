-- ===== src/Index.antt =====
-- landro-index/src/manifest.rs: folder manifests, their hashes and differences.
pub mod Manifest
pub mod Merkle
pub mod Integrity
mod Tests
