-- ===== src/Protocol/Store.antt =====
-- protocol/header.go: the store of headers of a connection, and the items that it keeps.
pub mod Item
pub mod Authentication
pub mod Cache
pub mod Params
pub mod Merge
pub mod Properties
