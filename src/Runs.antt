-- ===== src/Runs.antt =====
-- Runs on concrete inputs, and the theorems at concrete inputs.
mod Codec
mod Numbers
mod Floats
mod Checks
mod Streams
mod Paths
mod Outside
mod Stores
mod Messages
mod Keys
mod Identities
mod Clients
mod Server
mod Demo
