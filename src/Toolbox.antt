-- ===== src/Toolbox.antt =====
-- Tools and workflows: toolbox/.
pub mod Workflow
