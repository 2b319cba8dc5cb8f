-- ===== src/Runtime.antt =====
-- Execution mechanics: runtime/.
pub mod Worker
pub mod Intake
pub mod Lifecycle
