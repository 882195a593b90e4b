-- ===== src/Protocol.antt =====
-- The Go package protocol: the reading of streams, and the headers that a request is found by.
pub mod Names
pub mod Reader
pub mod Stream
pub mod Body
pub mod Path
pub mod Action
pub mod Outside
pub mod Store
pub mod Dispatch
pub mod Identity
pub mod Message
pub mod Writer
pub mod Execute
pub mod Request
pub mod Client
