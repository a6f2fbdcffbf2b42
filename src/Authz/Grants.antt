-- ===== src/Authz/Grants.antt =====
-- authorization.service.ts: what positions and delegations grant, and `can`.
use coes_platform.Base.{
  ℕ, String, Bool, true, false, not, ◌&&◌, ◌||◌, Option, none, some, List, [], ◌∷◌, ◌==◌, ltb, leb,
  select, if◌then◌else◌, is_some, or_else,
}
use coes_platform.Base.Action.{Action, get, pure, ◌>>=◌}
use coes_platform.Authz.State.{
  capability, classification, policy, Decision, Role, PositionRole, Delegation, active, expired,
  revoked, DelegationStatus, Occupancy, AuthzStore,
}
use coes_platform.Authz.Decide.{
  denied, granted, role_grants, role_name, covers, check_rbac_with_scope,
}

pub record AuthzContext : Type 0 where
  pub user_id : ℕ
  pub department_id : Option ℕ
  pub resource_classification : Option ℕ
  pub user_clearance : Option ℕ

abbrev is_active : DelegationStatus → Bool
is_active active = true
is_active expired = false
is_active revoked = false

-- The two alternatives of the query, and the filter after it.
abbrev pub is_effective : ℕ → ℕ → Delegation → Bool
is_effective now user d =
    (d.delegate_id == user && is_active d.status
      || d.delegate_id == user && not (is_some d.revoked_at))
    && (leb d.start_at now && (leb now d.end_at && not (is_some d.revoked_at)))

-- The first role of the position that grants the permission.
abbrev pub grant_of_position : List Role → String → ℕ → List PositionRole → Option Decision
grant_of_position roles permission position [] = none
grant_of_position roles permission position (r ∷ rest) =
    if role_grants roles r.role_id permission
    then some (granted (role_name roles r.role_id) none (some position))
    else grant_of_position roles permission position rest

abbrev pub or_later : Option Decision → Action AuthzStore Decision → Action AuthzStore Decision
or_later none later = later
or_later (some decision) later = pure decision

-- The body of the loop over the occupancies.
abbrev pub try_occupancy :
    Action AuthzStore Bool
    → Option Decision
    → Action AuthzStore Decision
    → Action AuthzStore Decision
try_occupancy inside found later =
    inside >>= λ in_scope. if in_scope then or_later found later else later

abbrev pub occupancies_of : ℕ → List Occupancy → List Occupancy
occupancies_of user occupancies =
    select (λ o. o.user_id == user && not (is_some o.vacated_at)) occupancies

-- The body of the loop over the delegations.
abbrev pub try_delegation :
    Action AuthzStore Decision → ℕ → Action AuthzStore Decision → Action AuthzStore Decision
try_delegation principal delegation later = principal >>= λ decision.
    if decision.allowed then pure (granted none (some delegation) none) else later

-- The ceiling: both levels are given and the clearance is the lower one.
abbrev pub is_above_clearance : Option ℕ → Option ℕ → Bool
is_above_clearance none clearance = false
is_above_clearance (some level) none = false
is_above_clearance (some level) (some clearance) = ltb clearance level

-- `if (decision.allowed) return decision`.
abbrev pub allowed_or : Decision → Action AuthzStore Decision → Action AuthzStore Decision
allowed_or decision next = if decision.allowed then pure decision else next

module _ (descendants : ℕ → Option (List ℕ)) where
  abbrev pub scan_occupancies :
      String → Option ℕ → AuthzStore → List Occupancy → Action AuthzStore Decision
  scan_occupancies permission department s [] = pure (denied (some capability))
  scan_occupancies permission department s (o ∷ rest) =
      try_occupancy (covers descendants department o.department_id)
        (grant_of_position s.roles permission o.position_id
          (select (λ r. r.position_id == o.position_id) s.position_roles))
        (scan_occupancies permission department s rest)

  abbrev pub scan_held :
      String → Option ℕ → AuthzStore → List Occupancy → Action AuthzStore Decision
  scan_held permission department s [] = pure (denied none)
  scan_held permission department s (o ∷ rest) = scan_occupancies permission department s (o ∷ rest)

  unfoldable pub check_positional_roles : ℕ → String → Option ℕ → Action AuthzStore Decision
  check_positional_roles user permission department = do
    s ← get
    scan_held permission department s (occupancies_of user s.occupancies)

  -- What the delegator himself may do, by his roles or by his positions.
  unfoldable pub check_principal : ℕ → ℕ → String → Option ℕ → Action AuthzStore Decision
  unfolding check_rbac_with_scope check_positional_roles
  check_principal now user permission department = do
    direct ← check_rbac_with_scope descendants now user permission department
    if direct.allowed then pure direct else check_positional_roles user permission department

  unfoldable pub scan_delegations :
      ℕ → String → Option ℕ → List Delegation → Action AuthzStore Decision
  unfolding check_principal
  scan_delegations now permission department [] = pure (denied (some policy))
  scan_delegations now permission department (d ∷ rest) =
      try_delegation (check_principal now d.delegator_id permission department) d.id
        (scan_delegations now permission department rest)

  unfoldable pub check_delegated_permission : ℕ → ℕ → String → Option ℕ → Action AuthzStore Decision
  unfolding scan_delegations
  check_delegated_permission now user permission department = do
    s ← get
    scan_delegations now permission department (select (is_effective now user) s.delegations)

  unfoldable pub can_by_grants : ℕ → String → AuthzContext → Action AuthzStore Decision
  unfolding check_rbac_with_scope check_positional_roles check_delegated_permission
  can_by_grants now permission context = do
    direct ← check_rbac_with_scope descendants now context.user_id permission context.department_id
    allowed_or direct (do
      positional ← check_positional_roles context.user_id permission context.department_id
      allowed_or positional (do
        delegated ← check_delegated_permission now context.user_id permission context.department_id
        allowed_or delegated (pure (denied (some (or_else direct.denied_layer capability))))))

  unfoldable pub can : ℕ → String → AuthzContext → Action AuthzStore Decision
  unfolding can_by_grants
  can now permission context =
      if is_above_clearance context.resource_classification context.user_clearance
      then pure (denied (some classification))
      else can_by_grants now permission context
