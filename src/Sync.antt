-- ===== src/Sync.antt =====
-- landro-sync: the diff of two manifests, the session of two peers, the scheduler, and conflicts.
pub mod Recovery
pub mod Diff
pub mod Session
pub mod Scheduler
pub mod Conflicts
