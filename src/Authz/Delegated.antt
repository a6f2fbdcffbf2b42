-- ===== src/Authz/Delegated.antt =====
-- delegated-admin.service.ts: the administrators of one department. The workflow templates that it
-- lists and deactivates are rows of the workflow engine and are left out.
use coes_platform.Base.{
  ℕ, String, Bool, not, ◌&&◌, Option, none, some, List, [], ◌∷◌, ◌++◌, ◌==◌, any, find, select,
  is_id,
}
use coes_platform.Base.Action.{
  Action, not_found, bad_request, forbidden, get, modify, pure, require, throw_if, ◌>>=◌, ◌>>◌,
}
use coes_platform.Authz.State.{
  Assignment, AuthzStore, dept_role_granted, dept_role_revoked, emit, role_by_id, is_unrevoked,
}
use coes_platform.Authz.Grants.{can}
use coes_platform.Authz.Admin.{change_assignment}

pub record GrantDeptRoleDto : Type 0 where
  pub target_user_id : ℕ
  pub role_id : ℕ
  pub expires_at : Option ℕ

-- DEPT_ADMIN_PERMISSION.
abbrev pub dept_admin : String
dept_admin = "dept:admin"

-- The unrevoked rows of a user with a role in a department.
abbrev pub holds_in : ℕ → ℕ → ℕ → Assignment → Bool
holds_in user role department a =
    (a.user_id == user && a.role_id == role)
    && (is_id a.department_scope_id department && is_unrevoked a)

abbrev pub dept_assignment : ℕ → ℕ → ℕ → GrantDeptRoleDto → Assignment
dept_assignment new_id actor department dto = record {
  id = new_id;
  user_id = dto.target_user_id;
  role_id = dto.role_id;
  department_scope_id = some department;
  position_id = none;
  granted_by_id = some actor;
  expires_at = dto.expires_at;
  revoked_at = none;
}

-- assertAdminHoldsRole.
unfoldable pub assert_admin_holds_role : ℕ → ℕ → ℕ → Action AuthzStore (Unit {0})
assert_admin_holds_role actor department role = do
  s ← get
  throw_if (not (any (holds_in actor role department) s.assignments)) forbidden

-- What grantDeptRole does once the caller is known to administer the department.
unfoldable pub grant_as_admin : ℕ → ℕ → ℕ → GrantDeptRoleDto → Action AuthzStore Assignment
unfolding assert_admin_holds_role
grant_as_admin new_id actor department dto = do
  s ← get
  role ← require (role_by_id dto.role_id s.roles) not_found
  throw_if role.is_system_role forbidden
  assert_admin_holds_role actor department dto.role_id
  throw_if (any (holds_in dto.target_user_id dto.role_id department) s.assignments) bad_request
  let saved = dept_assignment new_id actor department dto
  modify (λ t. record t { assignments = t.assignments ++ saved ∷ [] })
  emit (dept_role_granted dto.target_user_id dto.role_id department ∷ [])
  pure saved

module _ (descendants : ℕ → Option (List ℕ)) where
  unfoldable pub assert_dept_admin : ℕ → ℕ → ℕ → Action AuthzStore (Unit {0})
  unfolding can
  assert_dept_admin now actor department = do
    decision ← can descendants now dept_admin (record {
      user_id = actor;
      department_id = some department;
      resource_classification = none;
      user_clearance = none;
    })
    throw_if (not decision.allowed) forbidden

  unfoldable pub list_dept_assignments : ℕ → ℕ → ℕ → Action AuthzStore (List Assignment)
  unfolding assert_dept_admin
  list_dept_assignments now actor department = do
    assert_dept_admin now actor department
    s ← get
    pure (select (λ a. is_id a.department_scope_id department && is_unrevoked a) s.assignments)

  unfoldable pub grant_dept_role : ℕ → ℕ → ℕ → ℕ → GrantDeptRoleDto → Action AuthzStore Assignment
  unfolding assert_dept_admin grant_as_admin
  grant_dept_role now new_id actor department dto = do
    assert_dept_admin now actor department
    grant_as_admin new_id actor department dto

  unfoldable pub revoke_dept_role : ℕ → ℕ → ℕ → ℕ → Action AuthzStore (Unit {0})
  unfolding assert_dept_admin
  revoke_dept_role now actor department assignment = do
    assert_dept_admin now actor department
    s ← get
    row ←
        require
          (find
            (λ a. a.id == assignment && (is_id a.department_scope_id department && is_unrevoked a))
            s.assignments)
          not_found
    modify (λ t. record t {
      assignments =
          change_assignment row.id (λ a. record a { revoked_at = some now }) t.assignments;
    })
    emit (dept_role_revoked assignment department ∷ [])
