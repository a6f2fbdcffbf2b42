-- ===== src/Authz/Requests.antt =====
-- Any sequence of requests to the services of authorization, and of entries that the cache drops,
-- be it that they expire after AUTHZ_CACHE_TTL or that Redis evicts them.
use coes_platform.Base.{ℕ, String, Bool, true, false, Option, List, ◌==◌, any, select, ◌≡◌, HasIds}
use coes_platform.Authz.State.{CacheEntry, AuthzStore}
use coes_platform.Authz.Grants.{AuthzContext, can}
use coes_platform.Authz.Sod.{create_sod_rule}
use coes_platform.Authz.Admin.{
  CreateRoleDto, AssignUserRoleDto, create_role, delete_role, assign_role_to_position,
  revoke_role_from_position, assign_role_to_user, revoke_user_role_assignment,
}
use coes_platform.Authz.Delegated.{GrantDeptRoleDto, grant_dept_role}
use coes_platform.Authz.Cached.{AllBacked}
use coes_platform.Authz.Backing.{assignment_id}

-- All but revokeDeptRole. A revocation says whether the cache is a Redis that answers it.
pub data Request : Type 0 where
  ask : (now : ℕ) → String → AuthzContext → Request
  add_role : (new_id : ℕ) → CreateRoleDto → Request
  drop_role : (role : ℕ) → Request
  assign_position : (new_id position role actor : ℕ) → Request
  revoke_position : (reachable : Bool) → (position role : ℕ) → Request
  add_rule : (new_id role_a role_b : ℕ) → String → (actor : ℕ) → Request
  assign : (now new_id actor user : ℕ) → AssignUserRoleDto → Request
  revoke : (reachable : Bool) → (now actor user assignment : ℕ) → Request
  grant_in_department : (now new_id actor department : ℕ) → GrantDeptRoleDto → Request
  drop_entries : (CacheEntry → Bool) → Request

-- The id that the database gives a new assignment is a new one.
abbrev IsNew : ℕ → AuthzStore → Type 0
IsNew new_id s = any (λ a. a.id == new_id) s.assignments ≡ false

-- What is asked of a request: a new assignment has a new id, and where a role is taken from a user
-- the cache answers.
abbrev pub IsFresh : Request → AuthzStore → Type 0
IsFresh (ask now p context) s = Unit
IsFresh (add_role new_id dto) s = Unit
IsFresh (drop_role role) s = Unit
IsFresh (assign_position new_id position role actor) s = Unit
IsFresh (revoke_position reachable position role) s = Unit
IsFresh (add_rule new_id role_a role_b description actor) s = Unit
IsFresh (assign now new_id actor user dto) s = IsNew new_id s
IsFresh (revoke reachable now actor user assignment) s = reachable ≡ true
IsFresh (grant_in_department now new_id actor department dto) s = IsNew new_id s
IsFresh (drop_entries stays) s = Unit

module _ (descendants : ℕ → Option (List ℕ)) where
  unfoldable pub serve : Request → AuthzStore → AuthzStore
  serve (ask now p context) s = (can descendants now p context s).1
  serve (add_role new_id dto) s = (create_role new_id dto s).1
  serve (drop_role role) s = (delete_role role s).1
  serve (assign_position new_id position role actor) s =
      (assign_role_to_position new_id position role actor s).1
  serve (revoke_position reachable position role) s =
      (revoke_role_from_position reachable position role s).1
  serve (add_rule new_id role_a role_b description actor) s =
      (create_sod_rule new_id role_a role_b description actor s).1
  serve (assign now new_id actor user dto) s = (assign_role_to_user now new_id actor user dto s).1
  serve (revoke reachable now actor user assignment) s =
      (revoke_user_role_assignment reachable now actor user assignment s).1
  serve (grant_in_department now new_id actor department dto) s =
      (grant_dept_role descendants now new_id actor department dto s).1
  serve (drop_entries stays) s = record s { cache = select stays s.cache }

-- The ids of the assignments differ, and what is cached as allowed is backed.
abbrev pub IsTrusted : AuthzStore → Type 0
IsTrusted s = HasIds assignment_id s.assignments × AllBacked s
