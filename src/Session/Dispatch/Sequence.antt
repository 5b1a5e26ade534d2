-- ===== src/Session/Dispatch/Sequence.antt =====
-- A message that is older than one that a channel's sessions got goes to nobody.
