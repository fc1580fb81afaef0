-- ===== src/Cas/Packfile/Restore.antt =====
-- What was packed is read back.
