-- ===== src/Authz/Access.antt =====
-- What `can` may answer, and what it leaves of the cache.
use coes_platform.Base.{
  ℕ, String, Bool, true, false, not, ◌&&◌, ◌||◌, Option, none, some, List, [], ◌∷◌, any, select,
  if◌then◌else◌, is_some, leb, ◌==◌, arith, ◌≡◌, refl, inl, inr, Bool-cases, Option-cases,
}
use coes_platform.Base.Action.{Action, Result, return, raise, pure}
use coes_platform.Authz.State.{Decision, Delegation, CacheEntry, AuthzStore, Role, role_by_id}
use coes_platform.Authz.Decide.{granted, role_grants}
use coes_platform.Authz.Grants.{
  AuthzContext, can, can_by_grants, check_positional_roles, check_principal,
  check_delegated_permission, scan_delegations, is_effective, is_above_clearance,
}
use coes_platform.Authz.Roles.{collect_role_permissions, is_listed}
use coes_platform.Authz.Lineage.{has_permission_iff_collected}
use coes_platform.Authz.Justified.{
  with_cache, Caches, Answers, Answers-bind, has_role, ByRole, check_rbac-Answers,
}
use coes_platform.Authz.Positions.{has_position, ByPosition, check_positional-Answers}

-- What the user has of his own: a role that is assigned to him, or a position with the permission.
abbrev pub has_own : (ℕ → String → Bool) → AuthzStore → ℕ → String → Bool
has_own ok s user p = has_role ok s user p || has_position ok s user p

-- The delegation is the user's, it is not revoked, and the time is in its period.
abbrev pub is_in_force : ℕ → ℕ → Delegation → Bool
is_in_force now user d =
    (d.delegate_id == user && not (is_some d.revoked_at))
    && (leb d.start_at now && leb now d.end_at)

abbrev pub has_delegated : (ℕ → String → Bool) → ℕ → AuthzStore → ℕ → String → Bool
has_delegated ok now s user p =
    any (λ d. is_in_force now user d && has_own ok s d.delegator_id p) s.delegations

abbrev ByOwn : (ℕ → String → Bool) → AuthzStore → ℕ → String → Decision → Type 0
ByOwn ok s user p d = (not d.allowed || has_own ok s user p) ≡ true

abbrev AmongDelegations :
    (ℕ → String → Bool) → AuthzStore → String → List Delegation → Decision → Type 0
AmongDelegations ok s p ds d = (not d.allowed || any (λ g. has_own ok s g.delegator_id p) ds) ≡ true

abbrev ByGrant : (ℕ → String → Bool) → ℕ → AuthzStore → ℕ → String → Decision → Type 0
ByGrant ok now s user p d =
    (not d.allowed || (has_own ok s user p || has_delegated ok now s user p)) ≡ true

any-in_force :
    (now user : ℕ) (q : Delegation → Bool) (xs : List Delegation)
    → any q (select (is_effective now user) xs) ≡ true
    → any (λ d. is_in_force now user d && q d) xs ≡ true
any-in_force now user q [] h = h
any-in_force now user q (x ∷ xs) h = let rest = any-in_force now user q xs in ground arith

module _ (ok : ℕ → String → Bool) (s : AuthzStore) where
  pure-Answers :
      (Q : Decision → Type 0) (d : Decision) (c : List CacheEntry)
      → Caches ok s c
      → Q d
      → Answers ok s Q (pure d (with_cache s c))
  pure-Answers Q d c backed q = (c, refl, (backed, q))

  Answers-weaken :
      (P Q : Decision → Type 0) (o : Result Decision × AuthzStore)
      → ((d : Decision) → P d → Q d)
      → Answers ok s P o
      → Answers ok s Q o
  Answers-weaken P Q (return d, t) f h = (h.0, h.1, (h.2.0, f d h.2.1))
  Answers-weaken P Q (raise e, t) f h = h

  -- `if (decision.allowed) return decision` before the next check.
  return_or_next :
      (Q : Decision → Type 0) (d : Decision) (next : Action AuthzStore Decision)
      (c : List CacheEntry) (allowed : Bool)
      → Caches ok s c
      → (allowed ≡ true → Q d)
      → Answers ok s Q (next (with_cache s c))
      → Answers ok s Q ((if allowed then pure d else next) (with_cache s c))
  return_or_next Q d next c true backed q rest = (c, refl, (backed, q refl))
  return_or_next Q d next c false backed q rest = rest

module _ (descendants : ℕ → Option (List ℕ)) (ok : ℕ → String → Bool) (s : AuthzStore)
    (grants : (k : ℕ) (p : String) → role_grants s.roles k p ≡ true → ok k p ≡ true) (now : ℕ)
    (p : String) where
  check_principal-Answers :
      (user : ℕ) (department : Option ℕ) (c : List CacheEntry)
      → Caches ok s c
      → Answers ok s
          (ByOwn ok s user p)
          (check_principal descendants now user p department (with_cache s c))
  unfolding check_principal
  check_principal-Answers user department c backed =
      Answers-bind ok s (ByRole ok s user p) (ByOwn ok s user p) _ _
        (check_rbac-Answers descendants ok s grants now user p department c backed)
        (λ d e backed_e by.
          return_or_next ok s (ByOwn ok s user p) d
            (check_positional_roles descendants user p department) e d.allowed backed_e
            (λ t. ground arith)
            (Answers-weaken ok s (ByPosition ok s user p) (ByOwn ok s user p) _
              (λ g at. ground arith)
              (check_positional-Answers descendants ok s p (λ k h. grants k p h) user department e
                backed_e)))

  scan_delegations-Answers :
      (department : Option ℕ) (ds : List Delegation) (c : List CacheEntry)
      → Caches ok s c
      → Answers ok s
          (AmongDelegations ok s p ds)
          (scan_delegations descendants now p department ds (with_cache s c))
  unfolding scan_delegations
  scan_delegations-Answers department [] c backed = (c, refl, (backed, refl))
  scan_delegations-Answers department (g ∷ ds) c backed =
      Answers-bind ok s (ByOwn ok s g.delegator_id p) (AmongDelegations ok s p (g ∷ ds)) _ _
        (check_principal-Answers g.delegator_id department c backed)
        (λ d e backed_e by.
          return_or_next ok s (AmongDelegations ok s p (g ∷ ds)) (granted none (some g.id) none)
            (scan_delegations descendants now p department ds) e d.allowed backed_e
            (λ t. ground arith)
            (Answers-weaken ok s (AmongDelegations ok s p ds) (AmongDelegations ok s p (g ∷ ds)) _
              (λ k h. ground arith) (scan_delegations-Answers department ds e backed_e)))

  check_delegated-Answers :
      (user : ℕ) (department : Option ℕ) (c : List CacheEntry)
      → Caches ok s c
      → Answers ok s
          (ByGrant ok now s user p)
          (check_delegated_permission descendants now user p department (with_cache s c))
  unfolding check_delegated_permission
  check_delegated-Answers user department c backed =
      let ds = select (is_effective now user) s.delegations in
      Answers-weaken ok s (AmongDelegations ok s p ds) (ByGrant ok now s user p) _
        (λ d h.
          ground (arith, any-in_force now user (λ g. has_own ok s g.delegator_id p) s.delegations))
        (scan_delegations-Answers department ds c backed)

  can_by_grants-Answers :
      (context : AuthzContext) (c : List CacheEntry)
      → Caches ok s c
      → Answers ok s
          (ByGrant ok now s context.user_id p)
          (can_by_grants descendants now p context (with_cache s c))
  unfolding can_by_grants
  can_by_grants-Answers context c backed =
      let user = context.user_id in
      let department = context.department_id in
      Answers-bind ok s (ByRole ok s user p) (ByGrant ok now s user p) _ _
        (check_rbac-Answers descendants ok s grants now user p department c backed)
        (λ d e backed_e by.
          return_or_next ok s (ByGrant ok now s user p) d _ e d.allowed backed_e (λ t. ground arith)
            (Answers-bind ok s (ByPosition ok s user p) (ByGrant ok now s user p) _ _
              (check_positional-Answers descendants ok s p (λ k h. grants k p h) user department e
                backed_e)
              (λ g k backed_k at.
                return_or_next ok s (ByGrant ok now s user p) g _ k g.allowed backed_k
                  (λ t. ground arith)
                  (Answers-bind ok s (ByGrant ok now s user p) (ByGrant ok now s user p) _ _
                    (check_delegated-Answers user department k backed_k)
                    (λ h m backed_m from.
                      return_or_next ok s (ByGrant ok now s user p) h _ m h.allowed backed_m
                        (λ t. from) (m, refl, (backed_m, refl)))))))

-- The clearance reaches the classification, where both are given.
abbrev pub is_cleared : Option ℕ → Option ℕ → Bool
is_cleared none clearance = true
is_cleared (some level) none = true
is_cleared (some level) (some clearance) = leb level clearance

is_cleared_lem :
    (level clearance : Option ℕ)
    → is_above_clearance level clearance ≡ false
    → is_cleared level clearance ≡ true
is_cleared_lem none clearance h = refl
is_cleared_lem (some level) none h = refl
is_cleared_lem (some level) (some clearance) h = ground arith

-- A clearance that suffices, and a grant, of the user's own or of a delegator.
abbrev pub IsPermitted :
    (ℕ → String → Bool) → ℕ → String → AuthzContext → AuthzStore → Decision → Type 0
IsPermitted ok now p context s d =
    (not d.allowed
      || (is_cleared context.resource_classification context.user_clearance
          && (has_own ok s context.user_id p || has_delegated ok now s context.user_id p)))
    ≡ true

pub can-IsPermitted :
    (descendants : ℕ → Option (List ℕ)) (ok : ℕ → String → Bool) (s : AuthzStore)
    (grants : (k : ℕ) (p : String) → role_grants s.roles k p ≡ true → ok k p ≡ true) (now : ℕ)
    (p : String) (context : AuthzContext)
    → Caches ok s s.cache
    → Answers ok s (IsPermitted ok now p context s) (can descendants now p context s)
unfolding can
can-IsPermitted descendants ok s grants now p context backed =
    elim (Bool-cases (is_above_clearance context.resource_classification context.user_clearance)) [
      | inl t ↦ rw t (s.cache, refl, (backed, refl))
      | inr f ↦ rw f (
          Answers-weaken ok s (ByGrant ok now s context.user_id p) (IsPermitted ok now p context s)
            _ (λ d h. ground arith)
            (can_by_grants-Answers descendants ok s grants now p context s.cache backed))
    ]

-- The permission is in the list of the role or of one of its ancestors.
abbrev pub lists_permission : List Role → ℕ → String → Bool
lists_permission roles k p = elim (role_by_id k roles) [
  | none ↦ false
  | some role ↦ elim (collect_role_permissions roles role) [
    | none ↦ false
    | some names ↦ is_listed p names
  ]
]

granting-lists :
    (roles : List Role) (k : ℕ) (p : String)
    → role_grants roles k p ≡ true
    → lists_permission roles k p ≡ true
granting-lists roles k p h = elim (Option-cases (role_by_id k roles)) [
  | inl missing ↦ ground arith
  | inr (role, row) ↦
      let found = has_permission_iff_collected roles k role p row in
      let collected = found.1 in let same = found.2 in ground arith
]

-- Every cached decision to allow is due to a role that lists the permission and is still assigned.
abbrev pub AllGranted : AuthzStore → Type 0
AllGranted s = Caches (lists_permission s.roles) s s.cache

-- What a call of `can` returned and left is right: the tables are as before, the cache is still
-- granted in the sense above, and a decision to allow is permitted.
abbrev pub IsJustified :
    ℕ → String → AuthzContext → AuthzStore → Result Decision × AuthzStore → Type 0
IsJustified now p context s =
    Answers (lists_permission s.roles) s (IsPermitted (lists_permission s.roles) now p context s)

-- If every cached decision to allow is due to an unrevoked assignment of the user to the role that
-- it names, where the role or one of its ancestors lists the permission, `can` leaves the tables
-- alone and keeps this of the cache. It allows only with a clearance that is not below the
-- classification, and only a user with an unrevoked role that lists the permission so, with an
-- occupied position that has such a role, or with an unrevoked delegation in its period from
-- someone who has one of these two.
pub can-IsJustified :
    (descendants : ℕ → Option (List ℕ)) (now : ℕ) (p : String) (context : AuthzContext)
    (s : AuthzStore)
    → AllGranted s
    → IsJustified now p context s (can descendants now p context s)
can-IsJustified descendants now p context s backed =
    can-IsPermitted descendants (lists_permission s.roles) s (granting-lists s.roles) now p context
      backed
