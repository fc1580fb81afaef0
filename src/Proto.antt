-- ===== src/Proto.antt =====
-- landro-proto: the messages, the version check and the validation of messages.
pub mod Messages
pub mod Version
pub mod Validation
pub mod Paths
pub mod Sessions
mod Tests
