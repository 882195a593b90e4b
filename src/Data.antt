-- ===== src/Data.antt =====
-- The Go package data: the storage of a server.
pub mod Database
pub mod Storage
