-- ===== src/Authz/Runs.antt =====
-- Sequences of requests to the services of authorization.
use coes_platform.Base.{
  every, ℕ, Bool, true, false, not, ◌&&◌, Option, none, some, List, ◌==◌, any, find, select,
  All-select, arith, ◌≡◌, inl, inr, Bool-cases, Option-cases, is_some,
}
use coes_platform.Base.Action.{
  Result, return, raise, and_then, and_then-keeps, for_each, for_each_inv,
}
use coes_platform.Authz.State.{Assignment, AuthzStore}
use coes_platform.Authz.Grants.{AuthzContext, can}
use coes_platform.Authz.Sod.{create_sod_rule}
use coes_platform.Authz.Admin.{
  assign_role_to_position, revoke_role_from_position, invalidate_user_cache,
}
use coes_platform.Authz.Delegated.{
  GrantDeptRoleDto, grant_dept_role, grant_as_admin, assert_dept_admin, dept_admin,
}
use coes_platform.Authz.Cached.{IsBacked}
use coes_platform.Authz.Requests.{
  Request, ask, add_role, drop_role, assign_position, revoke_position, add_rule, assign, revoke,
  grant_in_department, drop_entries, IsFresh, serve, IsTrusted,
}
use coes_platform.Authz.Trusted.{
  can-IsTrusted, create_role-IsTrusted, delete_role-IsTrusted, assign_role_to_user-IsTrusted,
  grant_as_admin-IsTrusted, revoke_user_role_assignment-IsTrusted,
}

-- A state to come back to: trusted, with the same assignments.
abbrev Unmoved : List Assignment → AuthzStore → Type 0
Unmoved assignments t = IsTrusted t × (t.assignments ≡ assignments)

assert_dept_admin-Unmoved :
    (descendants : ℕ → Option (List ℕ)) (now actor department : ℕ) (s : AuthzStore)
    → IsTrusted s
    → Unmoved s.assignments (assert_dept_admin descendants now actor department s).1
unfolding assert_dept_admin
assert_dept_admin-Unmoved descendants now actor department s h =
    let context : AuthzContext = record {
      user_id = actor;
      department_id = some department;
      resource_classification = none;
      user_clearance = none;
    } in
    and_then-keeps (Unmoved s.assignments) (can descendants now dept_admin context s) _
      (can-IsTrusted descendants now dept_admin context s h)
      (λ decision t u. elim (Bool-cases decision.allowed) [
        | inl allows ↦ rw allows u
        | inr denies ↦ rw denies u
      ])

grant_dept_role-IsTrusted :
    (descendants : ℕ → Option (List ℕ)) (now new_id actor department : ℕ) (dto : GrantDeptRoleDto)
    (s : AuthzStore)
    → any (λ a. a.id == new_id) s.assignments ≡ false
    → IsTrusted s
    → IsTrusted (grant_dept_role descendants now new_id actor department dto s).1
unfolding grant_dept_role
grant_dept_role-IsTrusted descendants now new_id actor department dto s fresh h =
    go (assert_dept_admin descendants now actor department s)
      (assert_dept_admin-Unmoved descendants now actor department s h)
  where
    go :
        (o : Result (Unit {0}) × AuthzStore)
        → Unmoved s.assignments o.1
        → IsTrusted (and_then o (λ _. grant_as_admin new_id actor department dto)).1
    go (return u, t) (h, same) =
        grant_as_admin-IsTrusted new_id actor department dto t (rw same fresh) h
    go (raise e, t) (h, same) = h

drop_user-IsTrusted :
    (reachable : Bool) (user : ℕ) (s : AuthzStore)
    → IsTrusted s
    → IsTrusted (invalidate_user_cache reachable user s).1
unfolding invalidate_user_cache
drop_user-IsTrusted false user s h = h
drop_user-IsTrusted true user s h =
    (h.0, All-select (IsBacked s.roles s.assignments) (λ e. not (e.user_id == user)) s.cache h.1)

revoke_role_from_position-IsTrusted :
    (reachable : Bool) (position role : ℕ) (s : AuthzStore)
    → IsTrusted s
    → IsTrusted (revoke_role_from_position reachable position role s).1
unfolding revoke_role_from_position
revoke_role_from_position-IsTrusted reachable position role s h =
    elim (Option-cases
      (find (λ r. r.position_id == position && r.role_id == role) s.position_roles)) [
        | inl missing ↦ rw missing h
        | inr (row, found) ↦
            let t : AuthzStore = record s {
              position_roles = select (λ r. not (r.id == row.id)) s.position_roles;
            } in
            let occupants =
              select (λ o. o.position_id == position && not (is_some o.vacated_at)) s.occupancies in
            rw found (
              and_then-keeps IsTrusted
                (for_each (λ o. invalidate_user_cache reachable o.user_id) occupants t) _
                (for_each_inv (λ _. Unit {0}) IsTrusted
                  (λ o. invalidate_user_cache reachable o.user_id)
                  (λ o u k. drop_user-IsTrusted reachable o.user_id u) occupants t (every occupants)
                  h)
                (λ u v k. k))
      ]

module _ (descendants : ℕ → Option (List ℕ)) where
  serve-IsTrusted :
      (r : Request) (s : AuthzStore) → IsFresh r s → IsTrusted s → IsTrusted (serve descendants r s)
  unfolding serve assign_role_to_position create_sod_rule
  serve-IsTrusted (ask now p context) s fresh h = (can-IsTrusted descendants now p context s h).0
  serve-IsTrusted (add_role new_id dto) s fresh h = create_role-IsTrusted new_id dto s h
  serve-IsTrusted (drop_role role) s fresh h = delete_role-IsTrusted role s h
  serve-IsTrusted (assign_position new_id position role actor) s fresh h = ground arith
  serve-IsTrusted (revoke_position reachable position role) s fresh h =
      revoke_role_from_position-IsTrusted reachable position role s h
  serve-IsTrusted (add_rule new_id role_a role_b description actor) s fresh h = ground arith
  serve-IsTrusted (assign now new_id actor user dto) s fresh h =
      assign_role_to_user-IsTrusted now new_id actor user dto s fresh h
  serve-IsTrusted (revoke reachable now actor user assignment) s fresh h =
      let kept = revoke_user_role_assignment-IsTrusted now actor user assignment s h in
      rw fresh kept
  serve-IsTrusted (grant_in_department now new_id actor department dto) s fresh h =
      grant_dept_role-IsTrusted descendants now new_id actor department dto s fresh h
  serve-IsTrusted (drop_entries stays) s fresh h =
      (h.0, All-select (IsBacked s.roles s.assignments) stays s.cache h.1)

  -- Requests served one after another, each assignment with a new id, and each revocation from a
  -- user with a cache that answers.
  pub data Reaches : AuthzStore → AuthzStore → Type 0 where
    here : {s : AuthzStore} → Reaches s s
    served :
        (r : Request) {s t : AuthzStore}
        → IsFresh r s
        → Reaches (serve descendants r s) t
        → Reaches s t

  -- Whatever requests other than revokeDeptRole are served, in any order, carried out or refused,
  -- and whenever the cache drops entries: if each new assignment has a new id, and the cache answers
  -- whenever an assignment of a user is revoked, then the ids of the assignments stay different and
  -- every cached decision to allow stays backed by an unrevoked assignment of the user to the role
  -- it names.
  pub Reaches-IsTrusted : {s t : AuthzStore} → Reaches s t → IsTrusted s → IsTrusted t
  Reaches-IsTrusted here h = h
  Reaches-IsTrusted (served r fresh rest) h = Reaches-IsTrusted rest (serve-IsTrusted r _ fresh h)
