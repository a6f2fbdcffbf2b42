-- ===== src/Authz/Sod.antt =====
-- authorization.service.ts and governance.service.ts: separation of duties. The ids are numbers,
-- and their order stands for the order of the texts that `sort` compares.
use coes_platform.Base.{
  ℕ, String, Bool, ◌&&◌, Option, none, some, List, [], ◌∷◌, ◌++◌, map, ◌==◌, leb, any, find, select,
  if◌then◌else◌,
}
use coes_platform.Base.Action.{
  Action, not_found, bad_request, conflict, get, modify, pure, require, throw_if, ◌>>=◌, ◌>>◌,
}
use coes_platform.Authz.State.{
  Assignment, SodRule, AuthzStore, sod_rule_created, emit, role_by_id, is_unrevoked,
}
use coes_platform.Authz.Decide.{is_current, active_assignments}

unfoldable pub create_sod_rule : ℕ → ℕ → ℕ → String → ℕ → Action AuthzStore SodRule
create_sod_rule new_id role_a role_b description actor = do
  s ← get
  found_a ← require (role_by_id role_a s.roles) not_found
  found_b ← require (role_by_id role_b s.roles) not_found
  throw_if (role_a == role_b) bad_request
  let lesser = if leb role_a role_b then role_a else role_b
  let greater = if leb role_a role_b then role_b else role_a
  throw_if (any (λ r. r.role_a_id == lesser && r.role_b_id == greater) s.sod_rules) conflict
  let saved : SodRule = record {
    id = new_id;
    role_a_id = lesser;
    role_b_id = greater;
    description = description;
    created_by_id = some actor;
    active = Bool.true;
  }
  modify (λ t. record t { sod_rules = t.sod_rules ++ saved ∷ [] })
  emit (sod_rule_created new_id ∷ [])
  pure saved

-- The role that the rule forbids beside the new one.
abbrev pub other_role : SodRule → ℕ → Option ℕ
other_role rule new_role =
    if rule.role_a_id == new_role
    then some rule.role_b_id
    else (if rule.role_b_id == new_role then some rule.role_a_id else none)

abbrev pub forbids : List Assignment → ℕ → SodRule → Bool
forbids held new_role rule = elim (other_role rule new_role) [
  | none ↦ Bool.false
  | some k ↦ any (λ a. a.role_id == k) held
]

-- The first active rule that the new role would break.
unfoldable pub check_sod_violation : ℕ → ℕ → ℕ → AuthzStore → Option SodRule
check_sod_violation now user new_role s =
    find (forbids (active_assignments now user s.assignments) new_role)
      (select (λ r. r.active) s.sod_rules)

pub record SodViolation : Type 0 where
  pub user_id : ℕ
  pub rule_id : ℕ
  pub role_a_id : ℕ
  pub role_b_id : ℕ
  pub description : String

-- `SELECT DISTINCT`.
abbrev pub distinct : List ℕ → List ℕ
distinct [] = []
distinct (k ∷ ks) = let rest = distinct ks in if any (λ j. j == k) rest then rest else k ∷ rest

abbrev pub holds_now : ℕ → ℕ → Assignment → Bool
holds_now now role a = a.role_id == role && (is_unrevoked a && is_current now a.expires_at)

-- The rows a1 of the join: there is an a2 of the same user with the other role.
abbrev pub is_conflicting : ℕ → SodRule → List Assignment → Assignment → Bool
is_conflicting now rule assignments a =
    holds_now now rule.role_a_id a
    && any (λ b. b.user_id == a.user_id && holds_now now rule.role_b_id b) assignments

abbrev pub violations_of : ℕ → List Assignment → SodRule → List SodViolation
violations_of now assignments rule =
    map
      (λ user. record {
        user_id = user;
        rule_id = rule.id;
        role_a_id = rule.role_a_id;
        role_b_id = rule.role_b_id;
        description = rule.description;
      })
      (distinct (map (λ a. a.user_id) (select (is_conflicting now rule assignments) assignments)))

abbrev pub scan_rules : ℕ → List Assignment → List SodRule → List SodViolation
scan_rules now assignments [] = []
scan_rules now assignments (rule ∷ rules) =
    violations_of now assignments rule ++ scan_rules now assignments rules

unfoldable pub detect_sod_violations : ℕ → AuthzStore → List SodViolation
detect_sod_violations now s = scan_rules now s.assignments (select (λ r. r.active) s.sod_rules)
