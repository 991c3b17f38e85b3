-- ===== src/Proxy/Transaction/Tests.antt =====
-- A tracker after three replies.
