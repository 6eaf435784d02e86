-- ===== src/Host.antt =====
-- crates/meepo-host: the protocol and the transport of the host process.
pub mod Handshake
pub mod Outbound
pub mod Continuity
pub mod Wire
pub mod Turns
pub mod Connection
pub mod Requests
pub mod InteractionHub
