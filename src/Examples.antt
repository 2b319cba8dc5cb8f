-- ===== src/Examples.antt =====
-- Runs at concrete inputs.
mod Components
mod Scheduling
mod Planning
mod Replicas
mod Restoring
mod Transfers
mod Workflows
mod Workers
mod Journals
