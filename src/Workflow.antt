-- ===== src/Workflow.antt =====
-- The workflow engine of documents, edms/services/workflow.service.ts, with the entities of
-- edms/entities that it writes. Each method is an action on the tables, given the positions of the
-- org service and the occupants of positions.
pub mod State
pub mod Resolve
pub mod Templates
pub mod Instances
pub mod Engine
pub mod Actions
pub mod Skips
pub mod Acting
pub mod Foreign
pub mod Valid
pub mod Runs
mod Samples
mod Examples
