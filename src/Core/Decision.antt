-- ===== src/Core/Decision.antt =====
-- crates/meepo-core/src/interaction.rs: the answer of a permission prompt.

pub data PermissionDecision : Type 0 where
  allow deny : PermissionDecision
