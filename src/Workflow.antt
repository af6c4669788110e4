-- ===== src/Workflow.antt =====
-- The builders of whole resources: build_helpers.go (the template pipeline), affinity.go, workflow.go
-- and workflow_template.go.
pub mod Pipeline
pub mod Checked
pub mod Failing
pub mod Affine
pub mod Resource
pub mod Naming
pub mod Arguments
pub mod Filled
pub mod Building
pub mod Templates
pub mod CronFilled
pub mod Scheduling
pub mod Rendering
