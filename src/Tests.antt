-- ===== src/Tests.antt =====
-- Runs of the models on concrete inputs: the theorems applied to them.
pub mod Codecs
pub mod Names
pub mod Store
pub mod Sessions
pub mod Chat
pub mod Requests
pub mod Joining
pub mod Paging
pub mod Draining
pub mod Relay
pub mod Settings
pub mod Storage
pub mod Sockets
pub mod Starting
