-- ===== src/Authz/Lineage.antt =====
-- The walk along the parents of a role ends, also on a cycle of parents, and the two walks of the
-- service agree.
use coes_platform.Base.{
  ℕ, zero, suc, ◌≤◌, ◌<◌, String, Bool, true, false, not, ◌||◌, Option, some, List, [], ◌∷◌, ◌==◌,
  count, length, arith, ◌≡◌, refl, inl, inr, Bool-cases, Option-cases,
}
use coes_platform.Base.Text.{same_text, same_text-eq}
use coes_platform.Authz.State.{Role, role_by_id}
use coes_platform.Authz.Roles.{
  role_has_permission, collect_role_permissions_into, has_permission, collect_role_permissions,
  parent_of, has_visited, is_listed, add_name, add_names, enough,
}

abbrev unvisited : List ℕ → List Role → ℕ
unvisited visited roles = count (λ r. not (has_visited visited r.id)) roles

unvisited-le :
    (k : ℕ) (visited : List ℕ) (roles : List Role)
    → unvisited (k ∷ visited) roles ≤ unvisited visited roles
unvisited-le k visited [] = omega arith
unvisited-le k visited (r ∷ roles) = ground (arith, unvisited-le k visited roles)

-- Visiting a row for the first time leaves fewer rows unvisited.
unvisited-less :
    (k : ℕ) (visited : List ℕ) (roles : List Role) (found : Role)
    → role_by_id k roles ≡ some found
    → has_visited visited found.id ≡ false
    → unvisited (found.id ∷ visited) roles < unvisited visited roles
unvisited-less k visited [] found e fresh = cc
unvisited-less k visited (r ∷ roles) found e fresh = elim (Bool-cases (r.id == k)) [
  | inl t ↦
      let same : r ≡ found = ground arith in
      let le = unvisited-le found.id visited roles in
      let met : (found.id == r.id) ≡ true = ground arith in ground arith
  | inr f ↦
      let less = unvisited-less k visited roles found (rw f at e) fresh in
      let le = unvisited-le found.id visited roles in ground arith
]

parent-found :
    (role : Role) (roles : List Role) (parent : Role)
    → parent_of role roles ≡ some parent
    → (k : ℕ) × (role_by_id k roles ≡ some parent)
parent-found role roles parent e = elim (Option-cases role.parent_role_id) [
  | inl missing ↦ ground arith
  | inr (k, above) ↦ (k, rw above at e)
]

unvisited-length : (roles : List Role) → unvisited [] roles ≡ length roles
unvisited-length [] = refl
unvisited-length (r ∷ roles) = ground (arith, unvisited-length roles)

-- With more fuel than unvisited rows the walk from a row of the table ends.
collect-ends :
    (fuel : ℕ) (roles : List Role) (k : ℕ) (role : Role) (visited : List ℕ)
    (collected : List String)
    → role_by_id k roles ≡ some role
    → unvisited visited roles < fuel
    → (out : List String) × (collect_role_permissions_into fuel roles role visited collected
        ≡ some out)
unfolding collect_role_permissions_into
collect-ends zero roles k role visited collected row h = elim h [ ]
collect-ends (suc fuel) roles k role visited collected row h =
    elim (Bool-cases (has_visited visited role.id)) [
      | inl t ↦ (collected, rw t refl)
      | inr f ↦ elim (Option-cases (parent_of role roles)) [
        | inl none_above ↦ (add_names role.permissions collected, rw f (rw none_above refl))
        | inr (parent, e) ↦
            let above = parent-found role roles parent e in
            let less = unvisited-less k visited roles role row f in
            let rest =
              collect-ends fuel roles above.0 parent (role.id ∷ visited)
                (add_names role.permissions collected) above.1 (omega arith) in
            (rest.0, rw f (rw e rest.1))
      ]
    ]

is_listed-add_name :
    (p name : String) (names : List String)
    → is_listed p (add_name name names) ≡ (same_text name p || is_listed p names)
is_listed-add_name p name names = elim (Bool-cases (is_listed name names)) [
  | inl t ↦ elim (Bool-cases (same_text name p)) [
    | inl same ↦ rw t (rw same (rw (same_text-eq name p same) at t))
    | inr other ↦ rw t (rw other refl)
  ]
  | inr f ↦ rw f refl
]

pub is_listed-add_names :
    (p : String) (more names : List String)
    → is_listed p (add_names more names) ≡ (is_listed p more || is_listed p names)
is_listed-add_names p [] names = refl
is_listed-add_names p (name ∷ more) names =
    let rest = is_listed-add_names p more (add_name name names) in
    let head = is_listed-add_name p name names in ground arith

abbrev Agree : String → List String → List String → Option Bool → Type 0
Agree p out collected has =
    (b : Bool) × (has ≡ some b) × (is_listed p out ≡ (is_listed p collected || b))

walk-Agree :
    (fuel : ℕ) (roles : List Role) (role : Role) (p : String) (visited : List ℕ)
    (collected out : List String)
    → collect_role_permissions_into fuel roles role visited collected ≡ some out
    → Agree p out collected (role_has_permission fuel roles role p visited)
unfolding collect_role_permissions_into role_has_permission
walk-Agree zero roles role p visited collected out e = cc
walk-Agree (suc fuel) roles role p visited collected out e =
    let added = is_listed-add_names p role.permissions collected in
    elim (Bool-cases (has_visited visited role.id)) [
      | inl t ↦ let same : collected ≡ out = ground arith in (false, rw t refl, ground arith)
      | inr f ↦ elim (Option-cases (parent_of role roles)) [
        | inl none_above ↦
            let same : add_names role.permissions collected ≡ out = ground arith in
            elim (Bool-cases (is_listed p role.permissions)) [
              | inl own ↦ (true, rw f (rw own refl), ground arith)
              | inr other ↦ (false, rw f (rw other (rw none_above refl)), ground arith)
            ]
        | inr (parent, above) ↦
            let rest =
              walk-Agree fuel roles parent p (role.id ∷ visited)
                (add_names role.permissions collected) out (rw f at (rw above at e)) in
            elim (Bool-cases (is_listed p role.permissions)) [
              | inl own ↦ (true, rw f (rw own refl), let r = rest.2 in ground arith)
              | inr other ↦
                  (rest.0, rw f (rw other (rw above rest.1)), let r = rest.2 in ground arith)
            ]
      ]
    ]

-- collectRolePermissions ends for every row of the role table, also where the parents form a
-- cycle, and roleHasPermission says of every permission whether it is among those collected.
pub has_permission_iff_collected :
    (roles : List Role) (k : ℕ) (role : Role) (p : String)
    → role_by_id k roles ≡ some role
    → (names : List String) × (collect_role_permissions roles role ≡ some names)
      × (has_permission roles role p ≡ some (is_listed p names))
unfolding has_permission collect_role_permissions
has_permission_iff_collected roles k role p row =
    let all = unvisited-length roles in
    let ends = collect-ends (enough roles) roles k role [] [] row (omega arith) in
    let agree = walk-Agree (enough roles) roles role p [] [] ends.0 ends.1 in
    (ends.0, ends.1, let a = agree.1 in let b = agree.2 in ground arith)
