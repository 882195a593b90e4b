-- ===== src/Connection.antt =====
-- The package connection: the keys of a client, and the streams of a connection.
pub mod KeyManager
pub mod Streams
pub mod Accept
pub mod Steps
