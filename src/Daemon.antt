-- ===== src/Daemon.antt =====
-- The PTY daemon.
pub mod History
pub mod Requests
pub mod Registry
pub mod AgentStatus
pub mod WriteQueue
pub mod Client
pub mod Pane
pub mod Leased
pub mod Stop
pub mod Attach
