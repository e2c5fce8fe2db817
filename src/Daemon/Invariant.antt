-- ===== src/Daemon/Invariant.antt =====
-- The invariant of the whole daemon.
