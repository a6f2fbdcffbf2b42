-- ===== src/Authz/State.antt =====
-- The entities of modules/authorization/entities and the tables, cache and audit log that the
-- services of authorization share. Permissions are kept by their names, which are unique.
use coes_platform.Base.{ℕ, Bool, String, Option, List, ◌++◌, find, ◌==◌, not, is_some}
use coes_platform.Base.Action.{Action, modify}

pub data Layer : Type 0 where
  capability scope classification policy : Layer

-- The `reason` texts are left out.
pub record Decision : Type 0 where
  pub allowed : Bool
  pub denied_layer : Option Layer
  pub granted_by_role : Option String
  pub delegation_ref : Option ℕ
  pub position_ref : Option ℕ

pub record Role : Type 0 where
  pub id : ℕ
  pub name : String
  pub description : Option String
  pub parent_role_id : Option ℕ
  pub is_system_role : Bool
  pub permissions : List String

pub record Assignment : Type 0 where
  pub id : ℕ
  pub user_id : ℕ
  pub role_id : ℕ
  pub department_scope_id : Option ℕ
  pub position_id : Option ℕ
  pub granted_by_id : Option ℕ
  pub expires_at : Option ℕ
  pub revoked_at : Option ℕ

pub record PositionRole : Type 0 where
  pub id : ℕ
  pub position_id : ℕ
  pub role_id : ℕ
  pub granted_by_id : Option ℕ

pub record SodRule : Type 0 where
  pub id : ℕ
  pub role_a_id : ℕ
  pub role_b_id : ℕ
  pub description : String
  pub created_by_id : Option ℕ
  pub active : Bool

pub data DelegationStatus : Type 0 where
  active expired revoked : DelegationStatus

pub record Delegation : Type 0 where
  pub id : ℕ
  pub delegator_id : ℕ
  pub delegate_id : ℕ
  pub status : DelegationStatus
  pub start_at : ℕ
  pub end_at : ℕ
  pub revoked_at : Option ℕ

-- A row of users.user_position_assignments, with the department of its position.
pub record Occupancy : Type 0 where
  pub user_id : ℕ
  pub position_id : ℕ
  pub department_id : Option ℕ
  pub vacated_at : Option ℕ

-- `authz:<user>:<permission>:<department>`, with the decision kept under it.
pub record CacheEntry : Type 0 where
  pub user_id : ℕ
  pub permission : String
  pub department_id : Option ℕ
  pub decision : Decision

-- The audit events and the domain events, in the order of the calls.
pub data AuthzEvent : Type 0 where
  role_created role_deleted sod_rule_created user_role_assigned user_role_revoked :
      (row : ℕ) → AuthzEvent
  position_role_assigned position_role_revoked : (row : ℕ) → AuthzEvent
  sod_violation_prevented : (user role rule : ℕ) → AuthzEvent
  dept_role_granted : (user role department : ℕ) → AuthzEvent
  dept_role_revoked : (assignment department : ℕ) → AuthzEvent

pub record AuthzStore : Type 0 where
  pub roles : List Role
  pub permissions : List String
  pub assignments : List Assignment
  pub position_roles : List PositionRole
  pub sod_rules : List SodRule
  pub delegations : List Delegation
  pub occupancies : List Occupancy
  pub cache : List CacheEntry
  pub log : List AuthzEvent

abbrev pub emit : List AuthzEvent → Action AuthzStore (Unit {0})
emit events = modify (λ s. record s { log = s.log ++ events })

abbrev pub role_by_id : ℕ → List Role → Option Role
role_by_id k roles = find (λ r. r.id == k) roles

-- `revokedAt: IsNull()`.
abbrev pub is_unrevoked : Assignment → Bool
is_unrevoked a = not (is_some a.revoked_at)
