-- ===== src/Workflow.antt =====
-- internal/workflow: the checks of a workflow before it runs.
pub mod Requirements
pub mod Validate
