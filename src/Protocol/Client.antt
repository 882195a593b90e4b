-- ===== src/Protocol/Client.antt =====
-- The side of the client: the headers that a client stores on a server, and the key and the identity
-- that it signs them with.
pub mod Keys
pub mod HeaderStore
pub mod Message
