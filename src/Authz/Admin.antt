-- ===== src/Authz/Admin.antt =====
-- authorization.service.ts: roles, the roles of positions, and the roles of users. New rows stand
-- last. What a foreign key deletes along with a role is deleted here: the migrations
-- 1712300000000-InitialSchema and 1712300021000-RbacOrgModelHardening say which rows.
use coes_platform.Base.{
  ℕ, String, Bool, true, false, not, ◌&&◌, Option, none, some, List, [], ◌∷◌, ◌++◌, map, ◌==◌,
  length, any, find, select, is_some, is_id, if◌then◌else◌,
}
use coes_platform.Base.Text.{same_text}
use coes_platform.Base.Action.{
  Action, not_found, bad_request, conflict, get, modify, pure, require, throw, throw_if, when, skip,
  for_each, ◌>>=◌, ◌>>◌,
}
use coes_platform.Authz.State.{
  Role, Assignment, PositionRole, SodRule, AuthzStore, role_created, role_deleted,
  position_role_assigned, position_role_revoked, user_role_assigned, user_role_revoked,
  sod_violation_prevented, emit, role_by_id, is_unrevoked,
}
use coes_platform.Authz.Roles.{is_listed, add_names}
use coes_platform.Authz.Sod.{check_sod_violation}

pub record CreateRoleDto : Type 0 where
  pub name : String
  pub description : Option String
  pub permission_names : List String
  pub parent_role_id : Option ℕ

pub record AssignUserRoleDto : Type 0 where
  pub role_id : ℕ
  pub department_scope_id : Option ℕ
  pub position_id : Option ℕ
  pub expires_at : Option ℕ

-- `if (dto.parentRoleId)`: the parent must exist.
abbrev check_parent_role : Option ℕ → List Role → Action AuthzStore (Unit {0})
check_parent_role none roles = skip
check_parent_role (some k) roles = throw_if (not (is_some (role_by_id k roles))) not_found

unfoldable pub create_role : ℕ → CreateRoleDto → Action AuthzStore Role
create_role new_id dto = do
  s ← get
  throw_if (any (λ r. same_text r.name dto.name) s.roles) conflict
  check_parent_role dto.parent_role_id s.roles
  let names = add_names dto.permission_names []
  let known = select (λ name. is_listed name names) s.permissions
  throw_if (not (length known == length names)) bad_request
  let saved : Role = record {
    id = new_id;
    name = dto.name;
    description = dto.description;
    parent_role_id = dto.parent_role_id;
    is_system_role = false;
    permissions = known;
  }
  modify (λ t. record t { roles = t.roles ++ saved ∷ [] })
  emit (role_created new_id ∷ [])
  pure saved

-- `delete(id)`, with ON DELETE SET NULL of the parents and ON DELETE CASCADE of the rest.
abbrev pub orphaned : ℕ → Role → Role
orphaned k r = if is_id r.parent_role_id k then record r { parent_role_id = none } else r

abbrev pub remove_role : ℕ → AuthzStore → AuthzStore
remove_role k s = record s {
  roles = map (orphaned k) (select (λ r. not (r.id == k)) s.roles);
  assignments = select (λ a. not (a.role_id == k)) s.assignments;
  position_roles = select (λ r. not (r.role_id == k)) s.position_roles;
  sod_rules = select (λ r. not (r.role_a_id == k) && not (r.role_b_id == k)) s.sod_rules;
}

unfoldable pub delete_role : ℕ → Action AuthzStore (Unit {0})
delete_role k = do
  s ← get
  role ← require (role_by_id k s.roles) not_found
  throw_if role.is_system_role bad_request
  throw_if (any (λ a. a.role_id == k && is_unrevoked a) s.assignments) bad_request
  modify (remove_role k)
  emit (role_deleted k ∷ [])

-- `DEL` of the keys of the user, where the cache is a Redis that answers; if not, the failure is
-- logged and the entries stay.
unfoldable pub invalidate_user_cache : Bool → ℕ → Action AuthzStore (Unit {0})
invalidate_user_cache reachable user =
    when reachable
      (modify (λ s. record s { cache = select (λ e. not (e.user_id == user)) s.cache }))

unfoldable pub assign_role_to_position : ℕ → ℕ → ℕ → ℕ → Action AuthzStore PositionRole
assign_role_to_position new_id position role actor = do
  s ← get
  found ← require (role_by_id role s.roles) not_found
  throw_if (any (λ r. r.position_id == position && r.role_id == role) s.position_roles) conflict
  let saved : PositionRole = record {
    id = new_id;
    position_id = position;
    role_id = role;
    granted_by_id = some actor;
  }
  modify (λ t. record t { position_roles = t.position_roles ++ saved ∷ [] })
  emit (position_role_assigned new_id ∷ [])
  pure saved

unfoldable pub revoke_role_from_position : Bool → ℕ → ℕ → Action AuthzStore (Unit {0})
unfolding invalidate_user_cache
revoke_role_from_position reachable position role = do
  s ← get
  row ←
      require (find (λ r. r.position_id == position && r.role_id == role) s.position_roles)
        not_found
  modify (λ t. record t { position_roles = select (λ r. not (r.id == row.id)) t.position_roles })
  for_each (λ o. invalidate_user_cache reachable o.user_id)
      (select (λ o. o.position_id == position && not (is_some o.vacated_at)) s.occupancies)
  emit (position_role_revoked row.id ∷ [])

-- A field of the `where` that is set only if the request has it.
abbrev matches : Option ℕ → Option ℕ → Bool
matches none actual = true
matches (some k) actual = is_id actual k

abbrev is_same_grant : ℕ → AssignUserRoleDto → Assignment → Bool
is_same_grant user dto a =
    (a.user_id == user && (a.role_id == dto.role_id && is_unrevoked a))
    && (matches dto.department_scope_id a.department_scope_id
        && matches dto.position_id a.position_id)

abbrev pub new_assignment : ℕ → ℕ → ℕ → AssignUserRoleDto → Assignment
new_assignment new_id actor user dto = record {
  id = new_id;
  user_id = user;
  role_id = dto.role_id;
  department_scope_id = dto.department_scope_id;
  position_id = dto.position_id;
  granted_by_id = some actor;
  expires_at = dto.expires_at;
  revoked_at = none;
}

-- What a conflict of duties leads to: the audit event, and the refusal.
abbrev pub refuse_violation : ℕ → ℕ → Option SodRule → Action AuthzStore (Unit {0})
refuse_violation user role none = skip
refuse_violation user role (some rule) = do
  emit (sod_violation_prevented user role rule.id ∷ [])
  throw bad_request

unfoldable pub assign_role_to_user :
    ℕ → ℕ → ℕ → ℕ → AssignUserRoleDto → Action AuthzStore Assignment
unfolding check_sod_violation
assign_role_to_user now new_id actor user dto = do
  s ← get
  role ← require (role_by_id dto.role_id s.roles) not_found
  refuse_violation user dto.role_id (check_sod_violation now user dto.role_id s)
  throw_if (any (is_same_grant user dto) s.assignments) conflict
  let saved = new_assignment new_id actor user dto
  modify (λ t. record t { assignments = t.assignments ++ saved ∷ [] })
  emit (user_role_assigned new_id ∷ [])
  pure saved

-- `update(id, { revokedAt, grantedById: grantedById ?? actorId })`.
abbrev pub revoked_by : ℕ → ℕ → Assignment → Assignment
revoked_by now actor a = record a {
  revoked_at = some now;
  granted_by_id = elim a.granted_by_id [ none ↦ some actor | some g ↦ some g ];
}

abbrev pub change_assignment : ℕ → (Assignment → Assignment) → List Assignment → List Assignment
change_assignment k f = map (λ a. if a.id == k then f a else a)

unfoldable pub revoke_user_role_assignment : Bool → ℕ → ℕ → ℕ → ℕ → Action AuthzStore (Unit {0})
unfolding invalidate_user_cache
revoke_user_role_assignment reachable now actor user assignment = do
  s ← get
  row ←
      require
        (find (λ a. a.id == assignment && (a.user_id == user && is_unrevoked a)) s.assignments)
        not_found
  modify (λ t. record t {
    assignments = change_assignment assignment (revoked_by now actor) t.assignments;
  })
  invalidate_user_cache reachable user
  emit (user_role_revoked assignment ∷ [])
