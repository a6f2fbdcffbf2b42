-- ===== src/Authz/Cached.antt =====
-- The cache of decisions: what is cached as allowed is backed by a role that is still assigned.
use coes_platform.Base.{
  ℕ, String, Bool, true, false, not, ◌&&◌, ◌||◌, Option, none, some, List, [], ◌∷◌, ◌==◌, any, All,
  if◌then◌else◌, arith, ◌≡◌, refl, inl, inr, Bool-cases, Option-cases,
}
use coes_platform.Base.Text.{same_text, same_text_refl}
use coes_platform.Base.Action.{
  Action, return, Checks, Checks-bind, Checks-weaken, require-Checks, require, not_found,
}
use coes_platform.Authz.State.{
  Decision, Role, Assignment, CacheEntry, AuthzStore, is_unrevoked, role_by_id,
}
use coes_platform.Authz.Decide.{
  scan_assignments, role_grants, role_name, active_assignments, granted, covers,
}

abbrev pub same_name : Option String → Option String → Bool
same_name none name = false
same_name (some left) none = false
same_name (some left) (some right) = same_text left right

-- The row stands, and its role is the one that the decision names.
abbrev pub backs : List Role → CacheEntry → Assignment → Bool
backs roles e a =
    (a.user_id == e.user_id && is_unrevoked a)
    && same_name (role_name roles a.role_id) e.decision.granted_by_role

-- A row that `ok` accepts for the permission of the entry backs it.
abbrev pub IsGranted : (ℕ → String → Bool) → List Role → List Assignment → CacheEntry → Type 0
IsGranted ok roles assignments e =
    (not e.decision.allowed || any (λ a. ok a.role_id e.permission && backs roles e a) assignments)
    ≡ true

abbrev pub IsBacked : List Role → List Assignment → CacheEntry → Type 0
IsBacked roles assignments e = (not e.decision.allowed || any (backs roles e) assignments) ≡ true

abbrev pub AllBacked : AuthzStore → Type 0
AllBacked s = All (IsBacked s.roles s.assignments) s.cache

-- An allowing decision names the role of one of the rows, which `ok` accepts.
abbrev pub Names : (ℕ → String → Bool) → List Role → String → List Assignment → Decision → Type 0
Names ok roles p held d =
    (not d.allowed
      || any (λ a. ok a.role_id p && same_name (role_name roles a.role_id) d.granted_by_role) held)
    ≡ true

pub any-active :
    (q : Assignment → Bool) (now user : ℕ) (xs : List Assignment)
    → any q (active_assignments now user xs) ≡ true
    → any (λ a. (a.user_id == user && is_unrevoked a) && q a) xs ≡ true
any-active q now user [] h = h
any-active q now user (x ∷ xs) h = let rest = any-active q now user xs in ground arith

granting-named :
    (roles : List Role) (role_id : ℕ) (p : String)
    → role_grants roles role_id p ≡ true
    → same_name (role_name roles role_id) (role_name roles role_id) ≡ true
granting-named roles role_id p h = elim (Option-cases (role_by_id role_id roles)) [
  | inl missing ↦ ground arith
  | inr (role, found) ↦ rw found (same_text_refl role.name)
]

within {ℓ} :
    {A : Type 0} (P : A → Type ℓ) (s : AuthzStore) (in_scope : Bool) {a : A}
    (later : Action AuthzStore A)
    → P a
    → Checks P s (later s)
    → Checks P s ((if in_scope then (λ t. (return a, t)) else later) s)
within P s true later here rest = (refl, here)
within P s false later here rest = rest

module _ (descendants : ℕ → Option (List ℕ)) where
  pub covers-Checks :
      (department root : Option ℕ) (s : AuthzStore)
      → Checks (λ _. Unit {0}) s (covers descendants department root s)
  covers-Checks none root s = (refl, tt)
  covers-Checks (some d) none s = (refl, tt)
  covers-Checks (some d) (some root) s = elim (Bool-cases (d == root)) [
    | inl t ↦ rw t (refl, tt)
    | inr f ↦ rw f (
        Checks-bind _ (λ _. Unit {0}) s (require (descendants root) not_found s) _
          (require-Checks (descendants root) not_found s) (λ below e. (refl, tt)))
  ]

  pub scan-Checks :
      (ok : ℕ → String → Bool) (roles : List Role) (p : String) (department : Option ℕ)
      (found : Bool) (held : List Assignment) (s : AuthzStore)
      → ((k : ℕ) → role_grants roles k p ≡ true → ok k p ≡ true)
      → Checks
          (Names ok roles p held)
          s
          (scan_assignments descendants roles p department found held s)
  scan-Checks ok roles p department found [] s grants = (refl, refl)
  scan-Checks ok roles p department found (a ∷ held) s grants =
      let later : (seen : Bool)
          → Checks (Names ok roles p (a ∷ held)) s
              (scan_assignments descendants roles p department seen held s) =
        λ seen.
          Checks-weaken (Names ok roles p held) (Names ok roles p (a ∷ held)) s
            (scan_assignments descendants roles p department seen held s) (λ d n. ground arith)
            (scan-Checks ok roles p department seen held s grants) in
      elim (Bool-cases (role_grants roles a.role_id p)) [
        | inl t ↦
            let named = granting-named roles a.role_id p t in
            let accepted = grants a.role_id t in
            let here : Names ok roles p (a ∷ held) (granted (role_name roles a.role_id) none none) =
              ground arith in
            rw t (
              Checks-bind _ _ s (covers descendants department a.department_scope_id s) _
                (covers-Checks department a.department_scope_id s)
                (λ in_scope u.
                  within (Names ok roles p (a ∷ held)) s in_scope _ here (later (found || true))))
        | inr f ↦ rw f (later (found || false))
      ]
