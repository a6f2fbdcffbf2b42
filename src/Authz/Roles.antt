-- ===== src/Authz/Roles.antt =====
-- authorization.service.ts: the permissions of a role and of its parents. The walk is bounded by
-- fuel; `none` means that it is still running. A set is the list of its elements.
use coes_platform.Base.{
  ℕ, zero, suc, String, Bool, true, false, Option, none, some, List, [], ◌∷◌, ◌==◌, any,
  if◌then◌else◌, length,
}
use coes_platform.Base.Text.{same_text}
use coes_platform.Authz.State.{Role, role_by_id}

-- `findOne` on the parent, if there is one.
abbrev pub parent_of : Role → List Role → Option Role
parent_of role roles = elim role.parent_role_id [ none ↦ none | some k ↦ role_by_id k roles ]

abbrev pub has_visited : List ℕ → ℕ → Bool
has_visited visited k = any (λ j. j == k) visited

abbrev pub is_listed : String → List String → Bool
is_listed permission names = any (λ name. same_text name permission) names

abbrev or_parent {ℓ} : {A : Type ℓ} → Option Role → A → (Role → A) → A
or_parent none last go = last
or_parent (some parent) last go = go parent

unfoldable pub role_has_permission : ℕ → List Role → Role → String → List ℕ → Option Bool
role_has_permission zero roles role permission visited = none
role_has_permission (suc fuel) roles role permission visited =
    let inherited =
      or_parent (parent_of role roles) (some false)
        (λ parent. role_has_permission fuel roles parent permission (role.id ∷ visited)) in
    if has_visited visited role.id
    then some false
    else (if is_listed permission role.permissions then some true else inherited)

-- `set.add(name)` and the loop of it.
abbrev pub add_name : String → List String → List String
add_name name names = if is_listed name names then names else name ∷ names

abbrev pub add_names : List String → List String → List String
add_names [] names = names
add_names (name ∷ rest) names = add_names rest (add_name name names)

unfoldable pub collect_role_permissions_into :
    ℕ → List Role → Role → List ℕ → List String → Option (List String)
collect_role_permissions_into zero roles role visited collected = none
collect_role_permissions_into (suc fuel) roles role visited collected =
    let names = add_names role.permissions collected in
    let above =
      or_parent (parent_of role roles) (some names)
        (λ parent. collect_role_permissions_into fuel roles parent (role.id ∷ visited) names) in
    if has_visited visited role.id then some collected else above

-- A round for the role, one for each row, and one to meet a visited role again.
abbrev pub enough : List Role → ℕ
enough roles = suc (suc (length roles))

-- The callers' `new Set()`.
unfoldable pub has_permission : List Role → Role → String → Option Bool
unfolding role_has_permission
has_permission roles role permission = role_has_permission (enough roles) roles role permission []

unfoldable pub collect_role_permissions : List Role → Role → Option (List String)
unfolding collect_role_permissions_into
collect_role_permissions roles role = collect_role_permissions_into (enough roles) roles role [] []
