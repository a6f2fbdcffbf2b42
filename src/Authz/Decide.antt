-- ===== src/Authz/Decide.antt =====
-- authorization.service.ts: the functional roles of a user and their scopes. The cache answers with what it
-- holds; that it drops entries after a minute is a step of its own (Authz/Requests). What
-- `getDescendants` of the org service returns is a parameter: `none` is an unknown department.
use coes_platform.Base.{
  ℕ, String, Bool, true, false, not, ◌&&◌, ◌||◌, Option, none, some, List, [], ◌∷◌, ◌==◌, ltb, any,
  find, select, if◌then◌else◌, or_else,
}
use coes_platform.Base.Text.{same_text}
use coes_platform.Base.Action.{Action, not_found, get, modify, pure, require, ◌>>=◌, ◌>>◌}
use coes_platform.Authz.State.{
  Layer, capability, scope, Decision, Role, Assignment, CacheEntry, AuthzStore, role_by_id,
  is_unrevoked,
}
use coes_platform.Authz.Roles.{has_permission}
use mathlib.Core.Option

abbrev pub denied : Option Layer → Decision
denied layer = record {
  allowed = false;
  denied_layer = layer;
  granted_by_role = none;
  delegation_ref = none;
  position_ref = none;
}

abbrev pub granted : Option String → Option ℕ → Option ℕ → Decision
granted role delegation position = record {
  allowed = true;
  denied_layer = none;
  granted_by_role = role;
  delegation_ref = delegation;
  position_ref = position;
}

abbrev pub same_department : Option ℕ → Option ℕ → Bool
same_department none none = true
same_department none (some d) = false
same_department (some d) none = false
same_department (some d) (some e) = d == e

-- Whether an entry stands under the key.
abbrev pub has_key : ℕ → String → Option ℕ → CacheEntry → Bool
has_key user permission department e =
    e.user_id == user
    && (same_text e.permission permission && same_department e.department_id department)

abbrev pub cached : ℕ → String → Option ℕ → AuthzStore → Option CacheEntry
cached user permission department s = find (has_key user permission department) s.cache

-- `cache.set`: the entry under the key is replaced.
abbrev pub cache_set : ℕ → String → Option ℕ → Decision → Action AuthzStore (Unit {0})
cache_set user permission department decision = modify (λ s. record s {
  cache =
      record {
        user_id = user;
        permission = permission;
        department_id = department;
        decision = decision;
      }
      ∷ select (λ e. not (has_key user permission department e)) s.cache;
})

-- `!expiresAt || expiresAt > now`.
abbrev pub is_current : ℕ → Option ℕ → Bool
is_current now none = true
is_current now (some t) = ltb now t

abbrev pub active_assignments : ℕ → ℕ → List Assignment → List Assignment
active_assignments now user assignments =
    select (λ a. is_current now a.expires_at)
      (select (λ a. a.user_id == user && is_unrevoked a) assignments)

-- `roleHasPermission` on the role that the row refers to. The database has no row without one.
abbrev pub role_grants : List Role → ℕ → String → Bool
role_grants roles role_id permission = elim (role_by_id role_id roles) [
  | none ↦ false
  | some role ↦ or_else (has_permission roles role permission) false
]

abbrev pub role_name : List Role → ℕ → Option String
role_name roles role_id = Option.map (λ r. r.name) (role_by_id role_id roles)

-- The body of the loop over the assignments: `later` is what the rounds after it return.
abbrev pub try_assignment :
    Bool
    → Action AuthzStore Bool
    → Decision
    → Action AuthzStore Decision
    → Action AuthzStore Decision
try_assignment false inside decision later = later
try_assignment true inside decision later =
    inside >>= λ in_scope. if in_scope then pure decision else later

module _ (descendants : ℕ → Option (List ℕ)) where
  abbrev pub is_department_in_scope : ℕ → ℕ → Action AuthzStore Bool
  is_department_in_scope target root =
      if target == root
      then pure true
      else (require (descendants root) not_found >>= λ below. pure (any (λ d. d == target) below))

  -- `departmentId && row.departmentId` guards the question.
  abbrev pub covers : Option ℕ → Option ℕ → Action AuthzStore Bool
  covers none root = pure true
  covers (some target) none = pure true
  covers (some target) (some root) = is_department_in_scope target root

  -- The loop of checkRbacWithScope; `found` is `capabilityFound`.
  abbrev pub scan_assignments :
      List Role → String → Option ℕ → Bool → List Assignment → Action AuthzStore Decision
  scan_assignments roles permission department found [] =
      pure (denied (some (if found then scope else capability)))
  scan_assignments roles permission department found (a ∷ rest) =
      try_assignment (role_grants roles a.role_id permission)
        (covers department a.department_scope_id) (granted (role_name roles a.role_id) none none)
        (scan_assignments roles permission department
          (found || role_grants roles a.role_id permission) rest)

  abbrev pub decide_rbac : ℕ → ℕ → String → Option ℕ → Action AuthzStore Decision
  decide_rbac now user permission department = do
    s ← get
    decision ←
        scan_assignments s.roles permission department false
          (active_assignments now user s.assignments)
    cache_set user permission department decision
    pure decision

  abbrev answer_cached : Option CacheEntry → Action AuthzStore Decision → Action AuthzStore Decision
  answer_cached none decide = decide
  answer_cached (some e) decide = pure e.decision

  unfoldable pub check_rbac_with_scope : ℕ → ℕ → String → Option ℕ → Action AuthzStore Decision
  check_rbac_with_scope now user permission department = do
    s ← get
    answer_cached (cached user permission department s) (decide_rbac now user permission department)
