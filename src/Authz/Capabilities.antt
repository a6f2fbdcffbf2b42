-- ===== src/Authz/Capabilities.antt =====
-- The portal and the guard: the capabilities that a user is shown, and what his roles let him do.
use coes_platform.Base.{
  ℕ, String, Bool, false, ◌||◌, Option, none, List, [], ◌∷◌, any, arith, ◌≡◌, refl, inl, inr,
  Bool-cases, Option-cases,
}
use coes_platform.Base.Action.{return}
use coes_platform.Authz.State.{Decision, Role, Assignment, AuthzStore, role_by_id}
use coes_platform.Authz.Roles.{is_listed, add_names}
use coes_platform.Authz.Lineage.{has_permission_iff_collected, is_listed-add_names}
use coes_platform.Authz.Decide.{
  check_rbac_with_scope, scan_assignments, role_grants, cached, active_assignments, granted,
  role_name,
}
use coes_platform.Authz.Portal.{get_portal_context_for_user, capability_set, names_of_role}

abbrev grants : List Role → String → Assignment → Bool
grants roles p a = role_grants roles a.role_id p

role_grants_lem :
    (roles : List Role) (p : String) (a : Assignment)
    → is_listed p (names_of_role roles a) ≡ grants roles p a
role_grants_lem roles p a = elim (Option-cases (role_by_id a.role_id roles)) [
  | inl missing ↦ ground arith
  | inr (role, found) ↦
      let walk = has_permission_iff_collected roles a.role_id role p found in
      let collected = walk.1 in let has = walk.2 in ground arith
]

capability_set_lem :
    (roles : List Role) (p : String) (held : List Assignment) (names : List String)
    → is_listed p (capability_set roles held names)
      ≡ (is_listed p names || any (grants roles p) held)
capability_set_lem roles p [] names = ground arith
capability_set_lem roles p (a ∷ held) names =
    let rest = capability_set_lem roles p held (add_names (names_of_role roles a) names) in
    let added = is_listed-add_names p (names_of_role roles a) names in
    let own = role_grants_lem roles p a in ground arith

module _ (descendants : ℕ → Option (List ℕ)) where
  -- Without a department no scope is asked for: the first role that grants decides.
  scan_anywhere :
      (roles : List Role) (p : String) (found : Bool) (held : List Assignment) (s : AuthzStore)
      → (d : Decision) × (scan_assignments descendants roles p none found held s ≡ (return d, s))
        × (d.allowed ≡ any (grants roles p) held)
  scan_anywhere roles p found [] s = (_, refl, refl)
  scan_anywhere roles p found (a ∷ held) s = elim (Bool-cases (grants roles p a)) [
    | inl t ↦ (granted (role_name roles a.role_id) none none, rw t refl, rw t refl)
    | inr f ↦
        let rest = scan_anywhere roles p (found || false) held s in
        (rest.0, rw f rest.1, rw f rest.2)
  ]

  -- A permission is among the capabilities that the portal shows to a user exactly if
  -- checkRbacWithScope, asked without a department and with nothing cached, allows it, provided
  -- that the sort of the capabilities keeps the names.
  pub get_portal_context_for_user_iff :
      (sort : List String → List String)
      → ((p : String) (names : List String) → is_listed p (sort names) ≡ is_listed p names)
      → (now user : ℕ) (p : String) (s : AuthzStore) → cached user p none s ≡ none
      → (d : Decision) × ((check_rbac_with_scope descendants now user p none s).0 ≡ return d)
        × (d.allowed ≡ is_listed p (get_portal_context_for_user sort now user s).capabilities)
  unfolding check_rbac_with_scope get_portal_context_for_user
  get_portal_context_for_user_iff sort keeps now user p s fresh =
      let held = active_assignments now user s.assignments in
      let decided = scan_anywhere s.roles p false held s in
      let shown = capability_set_lem s.roles p held [] in
      let sorted = keeps p (capability_set s.roles held []) in
      (decided.0, rw fresh (rw decided.1 refl), let d = decided.2 in ground arith)
