-- ===== src/Cas.antt =====
-- landro-cas: the packfiles of the content store, their manager, and the store itself.
pub mod Packfile
pub mod Manager
pub mod Store
mod Tests
