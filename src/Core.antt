-- ===== src/Core.antt =====
-- crates/meepo-core: the canonical event contract and the ports of the runtime.
pub mod Decision
pub mod Fact
pub mod Event
pub mod SessionEvent
pub mod Chat
pub mod Store
pub mod Permission
pub mod Interaction
