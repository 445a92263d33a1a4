-- ===== src/Workflow.antt =====
-- The EPK workflow domain: server/bbz_core/domain/workflow.
pub mod Graph
pub mod Reach
pub mod Engine
pub mod Publish
pub mod Tasks
pub mod Simulate
