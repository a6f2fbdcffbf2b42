-- ===== src/Authz.antt =====
-- modules/authorization: who may do what, by roles, positions and delegations.
pub mod State
pub mod Roles
pub mod Decide
pub mod Grants
pub mod Sod
pub mod Admin
pub mod Delegated
pub mod Portal
pub mod Capabilities
pub mod Duties
pub mod Cached
pub mod Justified
pub mod Positions
pub mod Access
pub mod Backing
pub mod Requests
pub mod Trusted
pub mod Runs
pub mod Samples
pub mod Lineage
