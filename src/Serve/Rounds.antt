-- ===== src/Serve/Rounds.antt =====
-- The event loop on one connection ends, and takes lines from the bytes to come.
