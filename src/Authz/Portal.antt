-- ===== src/Authz/Portal.antt =====
-- authorization.service.ts: what the portal shows to a user. The order by `localeCompare` is the
-- runtime's, so the sort is a parameter.
use coes_platform.Base.{
  ℕ, String, Bool, not, ◌&&◌, ◌||◌, Option, none, some, List, [], ◌∷◌, ◌++◌, map, any,
  if◌then◌else◌,
}
use coes_platform.Authz.State.{Role, Assignment, AuthzStore, role_by_id}
use coes_platform.Authz.Roles.{add_names, collect_role_permissions}
use coes_platform.Authz.Decide.{active_assignments, role_name}
use text.Mathlib.Text.{starts_with}

pub data Workspace : Type 0 where
  core analytics admin : Workspace

pub record PortalRole : Type 0 where
  pub id : ℕ
  pub role_id : ℕ
  pub role_name : Option String
  pub department_scope_id : Option ℕ
  pub position_id : Option ℕ
  pub expires_at : Option ℕ

pub record PortalContext : Type 0 where
  pub roles : List PortalRole
  pub capabilities : List String
  pub workspaces : List Workspace

-- The body of the loop over the assignments. The walk over the roles ends (Authz/Lineage).
abbrev pub names_of_role : List Role → Assignment → List String
names_of_role roles a = elim (role_by_id a.role_id roles) [
  | none ↦ []
  | some role ↦ elim (collect_role_permissions roles role) [ none ↦ [] | some names ↦ names ]
]

abbrev pub capability_set : List Role → List Assignment → List String → List String
capability_set roles [] names = names
capability_set roles (a ∷ rest) names =
    capability_set roles rest (add_names (names_of_role roles a) names)

abbrev portal_role : List Role → Assignment → PortalRole
portal_role roles a = record {
  id = a.id;
  role_id = a.role_id;
  role_name = role_name roles a.role_id;
  department_scope_id = a.department_scope_id;
  position_id = a.position_id;
  expires_at = a.expires_at;
}

abbrev pub is_admin_capability : String → Bool
is_admin_capability c =
    (starts_with c "iam." || starts_with c "org.")
    || (starts_with c "authz." || starts_with c "search.admin.")

abbrev pub is_analytics_capability : String → Bool
is_analytics_capability c =
    (starts_with c "analytics." || starts_with c "gis.")
    || (starts_with c "search." && not (starts_with c "search.admin."))

unfoldable pub derive_portal_workspaces : List String → List Workspace
derive_portal_workspaces capabilities =
    core ∷ (if any is_admin_capability capabilities then admin ∷ [] else [])
    ++ (if any is_analytics_capability capabilities then analytics ∷ [] else [])

module _ (sort : List String → List String) where
  unfoldable pub get_portal_context_for_user : ℕ → ℕ → AuthzStore → PortalContext
  unfolding derive_portal_workspaces
  get_portal_context_for_user now user s =
      let held = active_assignments now user s.assignments in
      let capabilities = sort (capability_set s.roles held []) in
      record {
        roles = map (portal_role s.roles) held;
        capabilities = capabilities;
        workspaces = derive_portal_workspaces capabilities;
      }
