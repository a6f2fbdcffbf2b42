-- ===== src/Authz/Samples.antt =====
-- A small authorization store, and what the services do on it.
use coes_platform.Base.{ℕ, String, true, false, Option, none, some, List, [], ◌∷◌, ◌≡◌, refl}
use coes_platform.Base.Action.{return, raise, bad_request}
use coes_platform.Authz.State.{Decision, Role, Assignment, AuthzStore, active, capability}
use coes_platform.Authz.Roles.{
  is_listed, role_has_permission, has_permission, collect_role_permissions,
}
use coes_platform.Authz.Decide.{check_rbac_with_scope, granted, denied}
use coes_platform.Authz.Grants.{
  AuthzContext, can, can_by_grants, check_positional_roles, check_principal,
  check_delegated_permission, scan_delegations,
}
use coes_platform.Authz.Sod.{check_sod_violation, detect_sod_violations}
use coes_platform.Authz.Admin.{
  AssignUserRoleDto, delete_role, assign_role_to_user, revoke_user_role_assignment,
  invalidate_user_cache,
}
use coes_platform.Authz.Delegated.{revoke_dept_role, assert_dept_admin}
use coes_platform.Authz.Portal.{get_portal_context_for_user}
use coes_platform.Authz.Lineage.{has_permission_iff_collected}
use coes_platform.Authz.Capabilities.{get_portal_context_for_user_iff}
use coes_platform.Authz.Duties.{assign_role_to_user-no_violations}
use coes_platform.Authz.Access.{IsJustified, can-IsJustified}
use coes_platform.Authz.Requests.{ask, assign, revoke, IsTrusted, serve}
use coes_platform.Authz.Runs.{here, served, Reaches-IsTrusted}

abbrev role : ℕ → String → Option ℕ → List String → Role
role k name parent permissions = record {
  id = k;
  name = name;
  description = none;
  parent_role_id = parent;
  is_system_role = false;
  permissions = permissions;
}

-- 1 and 2 are each other's parents.
abbrev roles : List Role
roles =
    role 1 "clerk" (some 2) ("tasks.read" ∷ [])
    ∷ role 2 "head" (some 1) ("tasks.assign" ∷ "dept:admin" ∷ [])
    ∷ role 3 "auditor" none ("audit.read" ∷ [])
    ∷ []

abbrev assignment : ℕ → ℕ → ℕ → Option ℕ → Assignment
assignment k user role department = record {
  id = k;
  user_id = user;
  role_id = role;
  department_scope_id = department;
  position_id = none;
  granted_by_id = none;
  expires_at = none;
  revoked_at = none;
}

-- 8 is the delegate of 7 from 10 to 20; 9 holds position 5, which has the auditor's role.
abbrev office : AuthzStore
office = record {
  roles = roles;
  permissions = "tasks.read" ∷ "tasks.assign" ∷ "audit.read" ∷ [];
  assignments = assignment 1 7 1 none ∷ assignment 2 6 3 (some 40) ∷ [];
  position_roles = record { id = 1; position_id = 5; role_id = 3; granted_by_id = none } ∷ [];
  sod_rules =
      record {
        id = 1;
        role_a_id = 1;
        role_b_id = 3;
        description = "no clerk audits";
        created_by_id = none;
        active = true;
      }
      ∷ [];
  delegations =
      record {
        id = 1;
        delegator_id = 7;
        delegate_id = 8;
        status = active;
        start_at = 10;
        end_at = 20;
        revoked_at = none;
      }
      ∷ [];
  occupancies =
      record { user_id = 9; position_id = 5; department_id = some 40; vacated_at = none } ∷ [];
  cache = [];
  log = [];
}

abbrev no_departments : ℕ → Option (List ℕ)
no_departments k = none

abbrev context : ℕ → Option ℕ → AuthzContext
context user department = record {
  user_id = user;
  department_id = department;
  resource_classification = some 2;
  user_clearance = some 2;
}

-- The parent's permission is found on a cycle of parents.
inherited :
    has_permission roles (role 1 "clerk" (some 2) ("tasks.read" ∷ [])) "tasks.assign" ≡ some true
unfolding has_permission role_has_permission
inherited = refl

by_delegation :
    (can no_departments 15 "tasks.assign" (context 8 none) office).0
    ≡ return (granted none (some 1) none)
unfolding can can_by_grants check_rbac_with_scope check_positional_roles check_delegated_permission
    scan_delegations check_principal has_permission role_has_permission
by_delegation = refl

delegation_over :
    (can no_departments 21 "tasks.assign" (context 8 none) office).0
    ≡ return (denied (some capability))
unfolding can can_by_grants check_rbac_with_scope check_positional_roles check_delegated_permission
    scan_delegations check_principal has_permission role_has_permission
delegation_over = refl

by_position :
    (can no_departments 0 "audit.read" (context 9 (some 40)) office).0
    ≡ return (granted (some "auditor") none (some 5))
unfolding can can_by_grants check_rbac_with_scope check_positional_roles has_permission
    role_has_permission
by_position = refl

abbrev dto : ℕ → AssignUserRoleDto
dto role = record {
  role_id = role;
  department_scope_id = none;
  position_id = none;
  expires_at = none;
}

conflict_refused : (assign_role_to_user 5 9 1 7 (dto 3) office).0 ≡ raise bad_request
unfolding assign_role_to_user check_sod_violation
conflict_refused = refl

office-clean : detect_sod_violations 5 office ≡ []
unfolding detect_sod_violations
office-clean = refl

office-IsTrusted : IsTrusted office
office-IsTrusted = ((((refl, tt), (tt, tt))), tt)

abbrev asked_once : AuthzStore
unfolding can can_by_grants check_rbac_with_scope has_permission role_has_permission
asked_once = (can no_departments 3 "tasks.read" (context 7 none) office).1

-- The entry of user 7 goes with his assignment.
revoked_at_once :
    (can no_departments 5 "tasks.read"
      (context 7 none)
      (revoke_user_role_assignment true 4 1 7 1 asked_once).1).0
    ≡ return (denied (some capability))
unfolding asked_once can can_by_grants check_rbac_with_scope has_permission role_has_permission
    revoke_user_role_assignment invalidate_user_cache check_positional_roles
    check_delegated_permission scan_delegations
revoked_at_once = refl

-- Where the cache does not answer, the entry stays and user 7 is still let through.
revoked_unreachable :
    (can no_departments 5 "tasks.read"
      (context 7 none)
      (revoke_user_role_assignment false 4 1 7 1 asked_once).1).0
    ≡ return (granted (some "clerk") none none)
unfolding asked_once can can_by_grants check_rbac_with_scope has_permission role_has_permission
    revoke_user_role_assignment invalidate_user_cache check_positional_roles
    check_delegated_permission scan_delegations
revoked_unreachable = refl

-- User 7 may assign tasks because of the parent of his role. The deletion of the parent drops no
-- entry: he still may, until his entries are gone.
abbrev parent_deleted : AuthzStore
unfolding can can_by_grants check_rbac_with_scope has_permission role_has_permission delete_role
parent_deleted = (delete_role 2 (can no_departments 3 "tasks.assign" (context 7 none) office).1).1

parent_deleted_allowed :
    ((can no_departments 5 "tasks.assign" (context 7 none) parent_deleted).0
      ≡ return (granted (some "clerk") none none))
    × ((can no_departments 5 "tasks.assign"
          (context 7 none)
          (invalidate_user_cache true 7 parent_deleted).1).0
        ≡ return (denied (some capability)))
unfolding parent_deleted can can_by_grants check_rbac_with_scope has_permission role_has_permission
    delete_role invalidate_user_cache check_positional_roles check_delegated_permission
    scan_delegations
parent_deleted_allowed = (refl, refl)

-- User 11 administers department 40, where user 6 is the auditor.
abbrev department : AuthzStore
department = record office {
  assignments = assignment 4 11 2 (some 40) ∷ assignment 2 6 3 (some 40) ∷ [];
}

abbrev audited : AuthzStore
unfolding can can_by_grants check_rbac_with_scope has_permission role_has_permission
audited = (can no_departments 3 "audit.read" (context 6 (some 40)) department).1

-- revokeDeptRole leaves the entry of user 6, who is still let through.
dept_revoked_allowed :
    (can no_departments 5 "audit.read"
      (context 6 (some 40))
      (revoke_dept_role no_departments 4 11 40 2 audited).1).0
    ≡ return (granted (some "auditor") none none)
unfolding audited can can_by_grants check_rbac_with_scope has_permission role_has_permission
    revoke_dept_role assert_dept_admin check_positional_roles check_delegated_permission
    scan_delegations
dept_revoked_allowed = refl

has_permission_iff_collected_example :
    (names : List String) × (collect_role_permissions roles
        (role 1 "clerk" (some 2) ("tasks.read" ∷ []))
      ≡ some names)
    × (has_permission roles (role 1 "clerk" (some 2) ("tasks.read" ∷ [])) "tasks.assign"
        ≡ some (is_listed "tasks.assign" names))
has_permission_iff_collected_example =
    has_permission_iff_collected roles 1 (role 1 "clerk" (some 2) ("tasks.read" ∷ []))
      "tasks.assign" refl

get_portal_context_for_user_iff_example :
    (d : Decision) × ((check_rbac_with_scope no_departments 3 7 "tasks.assign" none office).0
      ≡ return d)
    × (d.allowed
        ≡ is_listed "tasks.assign"
            (get_portal_context_for_user (λ names. names) 3 7 office).capabilities)
get_portal_context_for_user_iff_example =
    get_portal_context_for_user_iff no_departments (λ names. names) (λ p names. refl) 3 7
      "tasks.assign" office refl

assign_role_to_user-no_violations_example :
    detect_sod_violations 5 (assign_role_to_user 5 9 1 7 (dto 2) office).1 ≡ []
assign_role_to_user-no_violations_example =
    assign_role_to_user-no_violations 5 9 1 7 (dto 2) office (refl, tt) office-clean

can-IsJustified_example :
    IsJustified 15 "tasks.assign"
      (context 8 none)
      office
      (can no_departments 15 "tasks.assign" (context 8 none) office)
can-IsJustified_example =
    can-IsJustified no_departments 15 "tasks.assign" (context 8 none) office tt

-- User 7 is asked about, gets a second role, and loses his first.
abbrev afternoon : AuthzStore
unfolding serve
afternoon = serve no_departments (revoke true 5 1 7 1) (
    serve no_departments (assign 4 3 1 7 (dto 2))
      (serve no_departments (ask 3 "tasks.read" (context 7 none)) office))

Reaches-IsTrusted_example : IsTrusted afternoon
unfolding afternoon serve can can_by_grants check_rbac_with_scope has_permission role_has_permission
    assign_role_to_user check_sod_violation
Reaches-IsTrusted_example =
    Reaches-IsTrusted no_departments
      (served (ask 3 "tasks.read" (context 7 none)) {s = office} tt
        (served (assign 4 3 1 7 (dto 2)) refl (served (revoke true 5 1 7 1) refl here)))
      office-IsTrusted
