-- ===== src/Tasks.antt =====
-- The task service, tasks/services/tasks.service.ts, with the entities of tasks/entities. Each
-- public method is an action on the tables of the service, given the chain of command.
pub mod State
pub mod Status
pub mod Checks
pub mod Create
pub mod Transition
pub mod Edit
pub mod Executors
pub mod Extensions
pub mod Valid
pub mod Moves
pub mod Invariant
pub mod Creation
pub mod Overdue
pub mod Oversight
pub mod Requests
pub mod Machine
pub mod Runs
pub mod Secrecy
mod Samples
mod Examples
