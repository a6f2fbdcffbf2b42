-- ===== src/Authz/Trusted.antt =====
-- Each request keeps the cache trustworthy.
use coes_platform.Base.{
  ℕ, String, Bool, true, false, not, ◌&&◌, Option, List, [], ◌==◌, any, find, select, All,
  if◌then◌else◌, arith, ◌≡◌, refl, sym, subst, inl, inr, Bool-cases, Option-cases, HasIds,
  HasIds-append, HasIds-select, HasIds-map, find-passes,
}
use coes_platform.Authz.Roles.{is_listed, add_names}
use coes_platform.Base.Action.{Result, return, raise}
use coes_platform.Authz.State.{Decision, Role, Assignment, AuthzStore, is_unrevoked}
use coes_platform.Authz.Grants.{AuthzContext, can}
use coes_platform.Authz.Admin.{
  CreateRoleDto, AssignUserRoleDto, create_role, delete_role, invalidate_user_cache,
  assign_role_to_user, new_assignment, revoke_user_role_assignment, revoked_by, change_assignment,
}
use coes_platform.Authz.Delegated.{
  GrantDeptRoleDto, grant_as_admin, assert_admin_holds_role, dept_assignment,
}
use coes_platform.Authz.Cached.{IsBacked}
use coes_platform.Authz.Justified.{Answers}
use coes_platform.Authz.Access.{IsPermitted, can-IsPermitted}
use coes_platform.Authz.Backing.{
  assignment_id, new_role-IsBacked, new_row-IsBacked, removed-IsBacked, changed-IsBacked,
}
use coes_platform.Authz.Requests.{IsTrusted}

-- Of the roles it is not asked here what they list.
abbrev any_role : ℕ → String → Bool
any_role k p = true

answer-IsTrusted :
    (s : AuthzStore) (Q : Decision → Type 0) (o : Result Decision × AuthzStore)
    → HasIds assignment_id s.assignments
    → Answers any_role s Q o
    → IsTrusted o.1 × (o.1.assignments ≡ s.assignments)
answer-IsTrusted s Q (return d, t) ids (c, same, (backed, q)) =
    subst (λ u. IsTrusted u × (u.assignments ≡ s.assignments)) (sym same) ((ids, backed), refl)
answer-IsTrusted s Q (raise e, t) ids (c, same, (backed, q)) =
    subst (λ u. IsTrusted u × (u.assignments ≡ s.assignments)) (sym same) ((ids, backed), refl)

pub can-IsTrusted :
    (descendants : ℕ → Option (List ℕ)) (now : ℕ) (p : String) (context : AuthzContext)
    (s : AuthzStore)
    → IsTrusted s
    → let t = (can descendants now p context s).1 in IsTrusted t × (t.assignments ≡ s.assignments)
can-IsTrusted descendants now p context s h =
    answer-IsTrusted s (IsPermitted any_role now p context s) (can descendants now p context s) h.0
      (can-IsPermitted descendants any_role s (λ k q g. refl) now p context h.1)

pub create_role-IsTrusted :
    (new_id : ℕ) (dto : CreateRoleDto) (s : AuthzStore)
    → IsTrusted s
    → IsTrusted (create_role new_id dto s).1
unfolding create_role
create_role-IsTrusted new_id dto s h =
    let known = select (λ name. is_listed name (add_names dto.permission_names [])) s.permissions in
    let r : Role = record {
      id = new_id;
      name = dto.name;
      description = dto.description;
      parent_role_id = dto.parent_role_id;
      is_system_role = false;
      permissions = known;
    } in
    let kept = new_role-IsBacked s.cache s.roles r s.assignments h.1 in ground arith

pub delete_role-IsTrusted :
    (role : ℕ) (s : AuthzStore) → IsTrusted s → IsTrusted (delete_role role s).1
unfolding delete_role
delete_role-IsTrusted role s h =
    elim (Bool-cases (any (λ a. a.role_id == role && is_unrevoked a) s.assignments)) [
      | inl held ↦ ground arith
      | inr free ↦
          let ids = HasIds-select assignment_id (λ a. not (a.role_id == role)) s.assignments h.0 in
          let kept = removed-IsBacked s.cache role s free h.1 in ground arith
    ]

pub assign_role_to_user-IsTrusted :
    (now new_id actor user : ℕ) (dto : AssignUserRoleDto) (s : AuthzStore)
    → any (λ a. a.id == new_id) s.assignments ≡ false
    → IsTrusted s
    → IsTrusted (assign_role_to_user now new_id actor user dto s).1
unfolding assign_role_to_user
assign_role_to_user-IsTrusted now new_id actor user dto s fresh h =
    let n = new_assignment new_id actor user dto in
    let ids = HasIds-append assignment_id n s.assignments fresh h.0 in
    let kept = new_row-IsBacked s.cache s.roles n s.assignments h.1 in ground arith

pub grant_as_admin-IsTrusted :
    (new_id actor department : ℕ) (dto : GrantDeptRoleDto) (s : AuthzStore)
    → any (λ a. a.id == new_id) s.assignments ≡ false
    → IsTrusted s
    → IsTrusted (grant_as_admin new_id actor department dto s).1
unfolding grant_as_admin assert_admin_holds_role
grant_as_admin-IsTrusted new_id actor department dto s fresh h =
    let n = dept_assignment new_id actor department dto in
    let ids = HasIds-append assignment_id n s.assignments fresh h.0 in
    let kept = new_row-IsBacked s.cache s.roles n s.assignments h.1 in ground arith

pub revoke_user_role_assignment-IsTrusted :
    (now actor user assignment : ℕ) (s : AuthzStore)
    → IsTrusted s
    → IsTrusted (revoke_user_role_assignment true now actor user assignment s).1
unfolding revoke_user_role_assignment invalidate_user_cache
revoke_user_role_assignment-IsTrusted now actor user assignment s h =
    elim (Option-cases
      (find (λ a. a.id == assignment && (a.user_id == user && is_unrevoked a)) s.assignments)) [
        | inl missing ↦ rw missing h
        | inr (row, found) ↦
            let p : Assignment → Bool = λ a. a.user_id == user && is_unrevoked a in
            let passes = find-passes (λ a. a.id == assignment && p a) s.assignments found in
            let same : row.user_id ≡ user = ground arith in
            let ids =
              HasIds-map assignment_id
                (λ a. if a.id == assignment then revoked_by now actor a else a) (λ a. ground arith)
                s.assignments h.0 in
            let kept =
              changed-IsBacked s.roles assignment p (revoked_by now actor) row s.assignments s.cache
                h.0 found h.1 in
            rw found (
              ids,
              subst
                  (λ u.
                    All
                      (IsBacked s.roles
                        (change_assignment assignment (revoked_by now actor) s.assignments))
                      (select (λ e. not (e.user_id == u)) s.cache))
                  same kept,
            )
      ]
