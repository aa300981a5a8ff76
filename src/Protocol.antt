-- ===== src/Protocol.antt =====
-- crates/protocol: the wire protocol between the client and the daemon.
pub mod Ids
pub mod Screen
pub mod Reject
pub mod Agent
pub mod Framing
pub mod Tests
