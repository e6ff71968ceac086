-- ===== src/PingPong/Stop.antt =====
-- When the child leaves its loop.
