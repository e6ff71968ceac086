-- ===== src/Speedtest.antt =====
-- The speed test of Mini-Project/Application, and its earlier version Mini-Project/Ref/main.c.
pub mod Double
pub mod Server
pub mod Nearest
pub mod Best
pub mod Client
