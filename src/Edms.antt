-- ===== src/Edms.antt =====
-- modules/edms: official documents from the draft to the archive, and the resolutions on them.
pub mod State
pub mod Status
pub mod Documents
pub mod Registry
pub mod Lifecycle
pub mod Executors
pub mod Execution
pub mod Issuing
pub mod Extensions
pub mod Sync
pub mod Numbering
pub mod Valid
pub mod Changes
pub mod Runs
pub mod Orders
pub mod Reviews
pub mod Proceedings
pub mod Listing
pub mod Samples
