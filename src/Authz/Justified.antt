-- ===== src/Authz/Justified.antt =====
-- What an allowing decision of `can` rests on.
use coes_platform.Base.{
  ℕ, String, Bool, true, false, not, ◌&&◌, ◌||◌, Option, List, [], ◌∷◌, ◌==◌, any, find, subst, sym,
  All-find, find-passes, All, All-select, arith, ◌≡◌, refl, inl, inr, Option-cases,
}
use coes_platform.Base.Text.{same_text-eq}
use coes_platform.Base.Action.{Action, Result, return, raise, Checks, Checks-weaken, and_then}
use coes_platform.Authz.State.{Decision, Assignment, CacheEntry, AuthzStore, is_unrevoked}
use coes_platform.Authz.Decide.{
  check_rbac_with_scope, decide_rbac, scan_assignments, role_grants, role_name, cache_set,
  active_assignments, has_key,
}
use coes_platform.Authz.Cached.{same_name, IsGranted, Names, any-active, scan-Checks}

-- Every action of the service but those of the administrators leaves the tables alone: it runs on
-- the tables of s with some cache, and what it returns satisfies Q.
abbrev pub with_cache : AuthzStore → List CacheEntry → AuthzStore
with_cache s c = record s { cache = c }

-- `ok` is what the roles of the rows are asked for.
module _ (ok : ℕ → String → Bool) (s : AuthzStore) where
  abbrev pub Caches : List CacheEntry → Type 0
  Caches = All (IsGranted ok s.roles s.assignments)

  abbrev pub Answers : (Decision → Type 0) → Result Decision × AuthzStore → Type 0
  Answers Q (return d, t) = (c : List CacheEntry) × (t ≡ with_cache s c) × (Caches c × Q d)
  Answers Q (raise e, t) = (c : List CacheEntry) × (t ≡ with_cache s c) × (Caches c × Unit {0})

  pub Answers-bind :
      (P Q : Decision → Type 0) (o : Result Decision × AuthzStore)
      (f : Decision → Action AuthzStore Decision)
      → Answers P o
      → ((d : Decision) (c : List CacheEntry) → Caches c → P d → Answers Q (f d (with_cache s c)))
      → Answers Q (and_then o f)
  Answers-bind P Q (return d, t) f h k =
      subst (λ u. Answers Q (f d u)) (sym h.1) (k d h.0 h.2.0 h.2.1)
  Answers-bind P Q (raise e, t) f h k = (h.0, h.1, (h.2.0, tt))

  -- A check that reads only.
  pub Checks-Answers :
      (Q : Decision → Type 0) (c : List CacheEntry) (o : Result Decision × AuthzStore)
      → Caches c
      → Checks Q (with_cache s c) o
      → Answers Q o
  Checks-Answers Q c (return d, t) backed h = (c, h.0, (backed, h.1))
  Checks-Answers Q c (raise e, t) backed h = (c, h.0, (backed, tt))

  abbrev pub has_role : ℕ → String → Bool
  has_role user p = any (λ a. ok a.role_id p && (a.user_id == user && is_unrevoked a)) s.assignments

  -- A decision that allows comes of a role that is still assigned to the user.
  abbrev pub ByRole : ℕ → String → Decision → Type 0
  ByRole user p d = (not d.allowed || has_role user p) ≡ true

  abbrev FromRow : ℕ → String → Decision → Type 0
  FromRow user p d =
      (not d.allowed
        || any
            (λ a.
              ok a.role_id p
              && ((a.user_id == user && is_unrevoked a)
                  && same_name (role_name s.roles a.role_id) d.granted_by_role))
            s.assignments)
      ≡ true

any-and :
    (o p q : Assignment → Bool) (xs : List Assignment)
    → any (λ a. o a && (p a && q a)) xs ≡ true
    → any (λ a. o a && p a) xs ≡ true
any-and o p q [] h = h
any-and o p q (x ∷ xs) h = let rest = any-and o p q xs in ground arith

any-swap :
    (o p q : Assignment → Bool) (xs : List Assignment)
    → any (λ a. p a && (o a && q a)) xs ≡ true
    → any (λ a. o a && (p a && q a)) xs ≡ true
any-swap o p q [] h = h
any-swap o p q (x ∷ xs) h = let rest = any-swap o p q xs in ground arith

module _ (descendants : ℕ → Option (List ℕ)) (ok : ℕ → String → Bool) (s : AuthzStore)
    (grants : (k : ℕ) (p : String) → role_grants s.roles k p ≡ true → ok k p ≡ true) where
  decide_rbac-Answers :
      (now user : ℕ) (p : String) (department : Option ℕ) (c : List CacheEntry)
      → Caches ok s c
      → Answers ok s
          (ByRole ok s user p)
          (decide_rbac descendants now user p department (with_cache s c))
  decide_rbac-Answers now user p department c backed =
      let held = active_assignments now user s.assignments in
      let named : Decision → Assignment → Bool =
        λ d a. same_name (role_name s.roles a.role_id) d.granted_by_role in
      let scan = scan_assignments descendants s.roles p department false held in
      Answers-bind ok s (FromRow ok s user p) (ByRole ok s user p) (scan (with_cache s c))
        (λ d t. (return d, (cache_set user p department d t).1))
        (Checks-Answers ok s (FromRow ok s user p) c (scan (with_cache s c)) backed (
          Checks-weaken (Names ok s.roles p held) (FromRow ok s user p) (with_cache s c)
            (scan (with_cache s c))
            (λ d n. ground (
              arith,
              any-active (λ a. ok a.role_id p && named d a) now user s.assignments,
              any-swap (λ a. ok a.role_id p) (λ a. a.user_id == user && is_unrevoked a) (named d)
                  s.assignments,
            ))
            (scan-Checks descendants ok s.roles p department false held (with_cache s c)
              (λ k h. grants k p h))))
        (λ d e backed_e from.
          let own : ByRole ok s user p d = ground (
            arith,
            any-and (λ a. ok a.role_id p) (λ a. a.user_id == user && is_unrevoked a) (named d)
                s.assignments,
          ) in
          let kept = All-select _ (λ x. not (has_key user p department x)) e backed_e in
          (_, refl, ((from, kept), own)))

  pub check_rbac-Answers :
      (now user : ℕ) (p : String) (department : Option ℕ) (c : List CacheEntry)
      → Caches ok s c
      → Answers ok s
          (ByRole ok s user p)
          (check_rbac_with_scope descendants now user p department (with_cache s c))
  unfolding check_rbac_with_scope
  check_rbac-Answers now user p department c backed =
      elim (Option-cases (find (has_key user p department) c)) [
        | inl fresh ↦ rw fresh (decide_rbac-Answers now user p department c backed)
        | inr (e, hit) ↦
            let sound = All-find (IsGranted ok s.roles s.assignments) _ c backed hit in
            let key = find-passes (has_key user p department) c hit in
            let same : e.user_id ≡ user = ground arith in
            let asked : e.permission ≡ p = same_text-eq e.permission p (ground arith) in
            let by : ByRole ok s e.user_id e.permission e.decision = ground (
              arith,
              any-and (λ a. ok a.role_id e.permission)
                  (λ a. a.user_id == e.user_id && is_unrevoked a)
                  (λ a. same_name (role_name s.roles a.role_id) e.decision.granted_by_role)
                  s.assignments,
            ) in
            rw hit (
              c,
              refl,
              (
                backed,
                subst (λ u. ByRole ok s u p e.decision) same
                    (subst (λ q. ByRole ok s e.user_id q e.decision) asked by),
              ),
            )
      ]
