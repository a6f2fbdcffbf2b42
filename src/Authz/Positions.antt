-- ===== src/Authz/Positions.antt =====
-- What an allowing decision of the positional roles and of the delegations rests on.
use coes_platform.Base.{
  ℕ, String, Bool, true, false, not, ◌&&◌, ◌||◌, Option, none, some, List, [], ◌∷◌, ◌==◌, any,
  select, if◌then◌else◌, is_some, arith, ◌≡◌, refl,
}
use coes_platform.Base.Action.{Action, Checks, Checks-bind, Checks-weaken}
use coes_platform.Authz.State.{Decision, Role, PositionRole, Occupancy, CacheEntry, AuthzStore}
use coes_platform.Authz.Decide.{role_grants, covers}
use coes_platform.Authz.Grants.{
  check_positional_roles, scan_occupancies, grant_of_position, or_later, scan_held, occupancies_of,
}
use coes_platform.Authz.Cached.{covers-Checks}
use coes_platform.Authz.Justified.{with_cache, Caches, Answers, Checks-Answers}

-- `ok` accepts a role of the position.
abbrev pub grants_at : (ℕ → String → Bool) → AuthzStore → String → ℕ → Bool
grants_at ok s p position = any (λ r. r.position_id == position && ok r.role_id p) s.position_roles

abbrev pub has_position : (ℕ → String → Bool) → AuthzStore → ℕ → String → Bool
has_position ok s user p =
    any (λ o. (o.user_id == user && not (is_some o.vacated_at)) && grants_at ok s p o.position_id)
      s.occupancies

grant_of_position-some :
    (ok : ℕ → String → Bool) (roles : List Role) (p : String) (position : ℕ)
    (rows : List PositionRole) (d : Decision)
    → ((k : ℕ) → role_grants roles k p ≡ true → ok k p ≡ true)
    → grant_of_position roles p position (select (λ r. r.position_id == position) rows) ≡ some d
    → any (λ r. r.position_id == position && ok r.role_id p) rows ≡ true
grant_of_position-some ok roles p position [] d grants e = cc
grant_of_position-some ok roles p position (r ∷ rows) d grants e =
    let rest = grant_of_position-some ok roles p position rows d grants in
    let own = grants r.role_id in ground arith

any-selected :
    (p q : Occupancy → Bool) (xs : List Occupancy)
    → any q (select p xs) ≡ true
    → any (λ o. p o && q o) xs ≡ true
any-selected p q [] h = h
any-selected p q (x ∷ xs) h = let rest = any-selected p q xs in ground arith

occupied :
    (P : Decision → Type 0) (t : AuthzStore) (in_scope : Bool) (found : Option Decision)
    (later : Action AuthzStore Decision)
    → ((d : Decision) → found ≡ some d → P d)
    → Checks P t (later t)
    → Checks P t ((if in_scope then or_later found later else later) t)
occupied P t true none later here rest = rest
occupied P t true (some d) later here rest = (refl, here d refl)
occupied P t false found later here rest = rest

abbrev AtOne : (ℕ → String → Bool) → AuthzStore → String → List Occupancy → Decision → Type 0
AtOne ok s p held d = (not d.allowed || any (λ o. grants_at ok s p o.position_id) held) ≡ true

abbrev pub ByPosition : (ℕ → String → Bool) → AuthzStore → ℕ → String → Decision → Type 0
ByPosition ok s user p d = (not d.allowed || has_position ok s user p) ≡ true

module _ (descendants : ℕ → Option (List ℕ)) (ok : ℕ → String → Bool) (s : AuthzStore) (p : String)
    (grants : (k : ℕ) → role_grants s.roles k p ≡ true → ok k p ≡ true) where
  scan_occupancies-Checks :
      (department : Option ℕ) (held : List Occupancy) (t : AuthzStore)
      → Checks (AtOne ok s p held) t (scan_occupancies descendants p department s held t)
  scan_occupancies-Checks department [] t = (refl, refl)
  scan_occupancies-Checks department (o ∷ held) t =
      let rows = select (λ r. r.position_id == o.position_id) s.position_roles in
      let later = scan_occupancies descendants p department s held in
      let rest =
        Checks-weaken (AtOne ok s p held) (AtOne ok s p (o ∷ held)) t (later t)
          (λ d h. ground arith) (scan_occupancies-Checks department held t) in
      Checks-bind (λ _. Unit {0}) (AtOne ok s p (o ∷ held)) t
        (covers descendants department o.department_id t) _
        (covers-Checks descendants department o.department_id t)
        (λ in_scope u.
          occupied (AtOne ok s p (o ∷ held)) t in_scope
            (grant_of_position s.roles p o.position_id rows) later
            (λ d e.
              let here =
                grant_of_position-some ok s.roles p o.position_id s.position_roles d grants e in
              ground arith)
            rest)

  scan_held-Checks :
      (department : Option ℕ) (held : List Occupancy) (t : AuthzStore)
      → Checks (AtOne ok s p held) t (scan_held descendants p department s held t)
  scan_held-Checks department [] t = (refl, refl)
  scan_held-Checks department (o ∷ held) t = scan_occupancies-Checks department (o ∷ held) t

  pub check_positional-Answers :
      (user : ℕ) (department : Option ℕ) (c : List CacheEntry)
      → Caches ok s c
      → Answers ok s
          (ByPosition ok s user p)
          (check_positional_roles descendants user p department (with_cache s c))
  unfolding check_positional_roles
  check_positional-Answers user department c backed =
      let held = occupancies_of user s.occupancies in
      Checks-Answers ok s (ByPosition ok s user p) c _ backed (
        Checks-weaken (AtOne ok s p held) (ByPosition ok s user p) (with_cache s c)
          (scan_held descendants p department (with_cache s c) held (with_cache s c))
          (λ d h. ground (
            arith,
            any-selected (λ o. o.user_id == user && not (is_some o.vacated_at))
                (λ o. grants_at ok s p o.position_id) s.occupancies,
          ))
          (scan_held-Checks department held (with_cache s c)))
