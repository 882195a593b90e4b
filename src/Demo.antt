-- ===== src/Demo.antt =====
-- The demo programs: demo-client and demo-server.
pub mod Client
pub mod Server
