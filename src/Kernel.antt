-- ===== src/Kernel.antt =====
-- The control plane: kernel/.
pub mod Planner
pub mod Assignment
pub mod Gate
pub mod Contract
pub mod RoleAllocator
pub mod Context
pub mod Telemetry
pub mod Scheduler
