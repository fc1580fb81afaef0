-- ===== src/Quic.antt =====
-- landro-quic: the errors, and the recovery of connections.
pub mod Errors
pub mod Breaker
pub mod Recovery
pub mod Health
mod Tests
