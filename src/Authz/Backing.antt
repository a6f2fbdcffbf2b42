-- ===== src/Authz/Backing.antt =====
-- What backs a cached decision survives the changes of the tables.
use coes_platform.Base.{
  ℕ, String, Bool, true, false, not, ◌&&◌, Option, some, List, [], ◌∷◌, ◌++◌, map, ◌==◌, any, find,
  select, All, All-map, All-find, arith, ◌≡◌, refl, inl, inr, Bool-cases, HasIds, is_id, ap,
  find-passes,
}
use coes_platform.Authz.State.{Role, Assignment, CacheEntry, AuthzStore, is_unrevoked}
use coes_platform.Authz.Decide.{role_name}
use coes_platform.Authz.Cached.{same_name, backs, IsBacked}
use coes_platform.Authz.Admin.{change_assignment, orphaned, remove_role}

abbrev pub assignment_id : Assignment → ℕ
assignment_id a = a.id

named-append :
    (roles : List Role) (r : Role) (k : ℕ) (name : Option String)
    → same_name (role_name roles k) name ≡ true
    → same_name (role_name (roles ++ r ∷ []) k) name ≡ true
named-append [] r k name h = cc
named-append (x ∷ roles) r k name h = elim (Bool-cases (x.id == k)) [
  | inl t ↦ rw t (rw t at h)
  | inr f ↦ rw f (named-append roles r k name (rw f at h))
]

named-removed :
    (roles : List Role) (gone k : ℕ) (name : Option String)
    → (k == gone) ≡ false
    → same_name (role_name roles k) name ≡ true
    → same_name (role_name (map (orphaned gone) (select (λ r. not (r.id == gone)) roles)) k) name
      ≡ true
named-removed [] gone k name other h = h
named-removed (x ∷ roles) gone k name other h =
    let rest = named-removed roles gone k name other in
    elim (Bool-cases (x.id == k)) [
      | inl t ↦ elim (Bool-cases (is_id x.parent_role_id gone)) [
        | inl child ↦ ground arith
        | inr root ↦ ground arith
      ]
      | inr f ↦ elim (Bool-cases (x.id == gone)) [
        | inl away ↦ ground arith
        | inr stays ↦ elim (Bool-cases (is_id x.parent_role_id gone)) [
          | inl child ↦ ground arith
          | inr root ↦ ground arith
        ]
      ]
    ]

module _ (e : CacheEntry) where
  any-new_role :
      (roles : List Role) (r : Role) (xs : List Assignment)
      → any (backs roles e) xs ≡ true
      → any (backs (roles ++ r ∷ []) e) xs ≡ true
  any-new_role roles r [] h = h
  any-new_role roles r (x ∷ xs) h =
      let rest = any-new_role roles r xs in
      let named = named-append roles r x.role_id e.decision.granted_by_role in ground arith

  any-new_row :
      (roles : List Role) (n : Assignment) (xs : List Assignment)
      → any (backs roles e) xs ≡ true
      → any (backs roles e) (xs ++ n ∷ []) ≡ true
  any-new_row roles n [] h = cc
  any-new_row roles n (x ∷ xs) h = let rest = any-new_row roles n xs in ground arith

  any-removed :
      (roles : List Role) (gone : ℕ) (xs : List Assignment)
      → any (λ a. a.role_id == gone && is_unrevoked a) xs ≡ false
      → any (backs roles e) xs ≡ true
      → any
          (backs (map (orphaned gone) (select (λ r. not (r.id == gone)) roles)) e)
          (select (λ a. not (a.role_id == gone)) xs)
        ≡ true
  any-removed roles gone [] free h = h
  any-removed roles gone (x ∷ xs) free h =
      let rest = any-removed roles gone xs in
      let named = named-removed roles gone x.role_id e.decision.granted_by_role in
      elim (Bool-cases (x.role_id == gone)) [ inl t ↦ ground arith | inr f ↦ ground arith ]

  change-other :
      (k : ℕ) (f : Assignment → Assignment) (xs : List Assignment)
      → All (λ a. (a.id == k) ≡ false) xs
      → change_assignment k f xs ≡ xs
  change-other k f [] h = refl
  change-other k f (x ∷ xs) h = let rest = change-other k f xs h.1 in rw h.0 (rw rest refl)

  -- A row of another user is changed.
  any-changed :
      (roles : List Role) (k : ℕ) (p : Assignment → Bool) (f : Assignment → Assignment)
      (row : Assignment) (xs : List Assignment)
      → HasIds assignment_id xs
      → find (λ a. a.id == k && p a) xs ≡ some row
      → (row.user_id == e.user_id) ≡ false
      → any (backs roles e) xs ≡ true
      → any (backs roles e) (change_assignment k f xs) ≡ true
  any-changed roles k p f row [] ids found other h = cc
  any-changed roles k p f row (x ∷ xs) ids found other h = elim (Bool-cases (x.id == k)) [
    | inr g ↦
        let later : find (λ a. a.id == k && p a) xs ≡ some row = ground arith in
        let rest = any-changed roles k p f row xs ids.1 later other in ground arith
    | inl t ↦ elim (Bool-cases (p x)) [
      | inl taken ↦
          let same : x ≡ row = ground arith in
          let user : x.user_id ≡ row.user_id = ap (λ a. a.user_id) same in
          let kept = change-other k f xs (All-map _ _ (λ a apart. ground arith) xs ids.0) in
          ground arith
      | inr left ↦
          let later : find (λ a. a.id == k && p a) xs ≡ some row = ground arith in
          let apart = All-find (λ y. (y.id == x.id) ≡ false) _ xs ids.0 later in
          let passes = find-passes (λ a. a.id == k && p a) xs later in ground arith
    ]
  ]

module _ (cache : List CacheEntry) where
  pub new_role-IsBacked :
      (roles : List Role) (r : Role) (xs : List Assignment)
      → All (IsBacked roles xs) cache
      → All (IsBacked (roles ++ r ∷ []) xs) cache
  new_role-IsBacked roles r xs =
      All-map (IsBacked roles xs) (IsBacked (roles ++ r ∷ []) xs)
        (λ e h. ground (arith, any-new_role e roles r xs)) cache

  pub new_row-IsBacked :
      (roles : List Role) (n : Assignment) (xs : List Assignment)
      → All (IsBacked roles xs) cache
      → All (IsBacked roles (xs ++ n ∷ [])) cache
  new_row-IsBacked roles n xs =
      All-map (IsBacked roles xs) (IsBacked roles (xs ++ n ∷ []))
        (λ e h. ground (arith, any-new_row e roles n xs)) cache

  pub removed-IsBacked :
      (gone : ℕ) (s : AuthzStore)
      → any (λ a. a.role_id == gone && is_unrevoked a) s.assignments ≡ false
      → All (IsBacked s.roles s.assignments) cache
      → All (IsBacked (remove_role gone s).roles (remove_role gone s).assignments) cache
  removed-IsBacked gone s free =
      All-map (IsBacked s.roles s.assignments)
        (IsBacked (remove_role gone s).roles (remove_role gone s).assignments)
        (λ e h. ground (arith, any-removed e s.roles gone s.assignments)) cache

-- Once the entries of the user of the row are dropped, the others stay backed.
pub changed-IsBacked :
    (roles : List Role) (k : ℕ) (p : Assignment → Bool) (f : Assignment → Assignment)
    (row : Assignment) (xs : List Assignment) (cache : List CacheEntry)
    → HasIds assignment_id xs
    → find (λ a. a.id == k && p a) xs ≡ some row
    → All (IsBacked roles xs) cache
    → All
        (IsBacked roles (change_assignment k f xs))
        (select (λ e. not (e.user_id == row.user_id)) cache)
changed-IsBacked roles k p f row xs [] ids found h = tt
changed-IsBacked roles k p f row xs (e ∷ cache) ids found h =
    let rest = changed-IsBacked roles k p f row xs cache ids found h.1 in
    elim (Bool-cases (e.user_id == row.user_id)) [
      | inl t ↦ rw t rest
      | inr other ↦
          let changed = any-changed e roles k p f row xs ids found (ground arith) in
          let own = h.0 in rw other (ground arith, rest)
    ]
