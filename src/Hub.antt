-- ===== src/Hub.antt =====
-- backend/hub.go, backend/client.go and backend/message.go: the in-process hub, its clients, and the
-- read loop of a connection.
pub mod State
pub mod Fanout
pub mod Remote
pub mod Client
pub mod Presence
pub mod Drain
