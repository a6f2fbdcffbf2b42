-- ===== src/Authz/Duties.antt =====
-- Separation of duties: the check before a role is assigned, and the scan that looks for conflicts.
use coes_platform.Base.{
  ℕ, Bool, true, false, ◌&&◌, ◌||◌, none, List, [], ◌∷◌, ◌++◌, map, ◌==◌, any, find, select, All,
  All-select, arith, ◌≡◌, refl, inl, inr, Bool-cases, Option-cases,
}
use coes_platform.Authz.State.{Assignment, SodRule, AuthzStore}
use coes_platform.Authz.Decide.{active_assignments}
use coes_platform.Authz.Sod.{
  forbids, check_sod_violation, SodViolation, distinct, holds_now, is_conflicting, violations_of,
  scan_rules, detect_sod_violations,
}
use coes_platform.Authz.Admin.{AssignUserRoleDto, assign_role_to_user, new_assignment}

-- The two roles of a rule are different, as the table's CHECK demands.
abbrev pub IsPair : SodRule → Type 0
IsPair r = (r.role_a_id == r.role_b_id) ≡ false

-- No user holds both roles of the rule.
abbrev IsKept : ℕ → List Assignment → SodRule → Type 0
IsKept now assignments rule = any (is_conflicting now rule assignments) assignments ≡ false

select-none : (p : Assignment → Bool) (xs : List Assignment) → any p xs ≡ false → select p xs ≡ []
select-none p [] h = refl
select-none p (x ∷ xs) h = let rest = select-none p xs in ground arith

select-none_iff :
    (p : Assignment → Bool) (xs : List Assignment) → select p xs ≡ [] → any p xs ≡ false
select-none_iff p [] h = refl
select-none_iff p (x ∷ xs) h = let rest = select-none_iff p xs in ground arith

any-append :
    (p : Assignment → Bool) (xs ys : List Assignment) → any p (xs ++ ys) ≡ (any p xs || any p ys)
any-append p [] ys = refl
any-append p (x ∷ xs) ys = let rest = any-append p xs ys in ground arith

distinct-nil : (ks : List ℕ) → distinct ks ≡ [] → ks ≡ []
distinct-nil [] h = refl
distinct-nil (k ∷ ks) h = elim (Bool-cases (any (λ j. j == k) (distinct ks))) [
  | inl t ↦
      let empty : distinct ks ≡ [] = rw t at h in
      let none_in : any (λ j. j == k) [] ≡ true = rw empty at t in cc
  | inr f ↦ let never : k ∷ distinct ks ≡ [] = rw f at h in cc
]

any-cong :
    (p q : Assignment → Bool)
    → ((a : Assignment) → p a ≡ q a)
    → (xs : List Assignment) → any p xs ≡ any q xs
any-cong p q same [] = refl
any-cong p q same (x ∷ xs) = let rest = any-cong p q same xs in let head = same x in ground arith

any-active :
    (now user k : ℕ) (xs : List Assignment)
    → any (λ a. a.role_id == k) (active_assignments now user xs)
      ≡ any (λ a. a.user_id == user && holds_now now k a) xs
any-active now user k [] = refl
any-active now user k (x ∷ xs) = let rest = any-active now user k xs in ground arith

-- One more row on the other side of the join.
any-wider :
    (user : ℕ) (more : Bool) (holds old : Assignment → Bool) (xs : List Assignment)
    → any (λ a. holds a && old a) xs ≡ false
    → (more && any (λ a. a.user_id == user && holds a) xs) ≡ false
    → any (λ a. holds a && (old a || (user == a.user_id && more))) xs ≡ false
any-wider user more holds old [] h k = refl
any-wider user more holds old (x ∷ xs) h k =
    let rest = any-wider user more holds old xs in ground arith

module _ (now : ℕ) (rule : SodRule) (xs : List Assignment) (n : Assignment) where
  abbrev partner : ℕ → Bool
  partner user = any (λ b. b.user_id == user && holds_now now rule.role_b_id b) xs

  is_conflicting-append :
      (a : Assignment)
      → is_conflicting now rule (xs ++ n ∷ []) a ≡ (
          holds_now now rule.role_a_id a
          && (partner a.user_id || (n.user_id == a.user_id && holds_now now rule.role_b_id n)))
  is_conflicting-append a =
      let split =
        any-append (λ b. b.user_id == a.user_id && holds_now now rule.role_b_id b) xs (n ∷ []) in
      ground arith

  -- A row that the check lets pass keeps the rule.
  IsKept-append :
      IsPair rule
      → forbids (active_assignments now n.user_id xs) n.role_id rule ≡ false
      → IsKept now xs rule
      → IsKept now (xs ++ n ∷ []) rule
  IsKept-append pair pass kept =
      let split = any-append (is_conflicting now rule (xs ++ n ∷ [])) xs (n ∷ []) in
      let same =
        any-cong (is_conflicting now rule (xs ++ n ∷ []))
          (λ a.
            holds_now now rule.role_a_id a
            && (partner a.user_id || (n.user_id == a.user_id && holds_now now rule.role_b_id n)))
          is_conflicting-append xs in
      let own = is_conflicting-append n in
      let a_active = any-active now n.user_id rule.role_a_id xs in
      let b_active = any-active now n.user_id rule.role_b_id xs in
      let wider =
        any-wider n.user_id (holds_now now rule.role_b_id n) (holds_now now rule.role_a_id)
          (λ a. partner a.user_id) xs kept in
      ground arith

map-nil {ℓ κ} : {A : Type ℓ} {B : Type κ} (f : A → B) (xs : List A) → map f xs ≡ [] → xs ≡ []
map-nil f [] h = refl
map-nil f (x ∷ xs) h = cc

append-nil-left : (xs ys : List SodViolation) → xs ++ ys ≡ [] → xs ≡ []
append-nil-left [] ys h = refl
append-nil-left (x ∷ xs) ys h = cc

append-nil-right : (xs ys : List SodViolation) → xs ++ ys ≡ [] → ys ≡ []
append-nil-right [] ys h = h
append-nil-right (x ∷ xs) ys h = cc

violations_of-IsKept :
    (now : ℕ) (xs : List Assignment) (rule : SodRule)
    → violations_of now xs rule ≡ []
    → IsKept now xs rule
violations_of-IsKept now xs rule h =
    let hits = select (is_conflicting now rule xs) xs in
    let users = map-nil _ (distinct (map (λ a. a.user_id) hits)) h in
    select-none_iff (is_conflicting now rule xs) xs
      (map-nil (λ a. a.user_id) hits (distinct-nil (map (λ a. a.user_id) hits) users))

IsKept-violations_of :
    (now : ℕ) (xs : List Assignment) (rule : SodRule)
    → IsKept now xs rule
    → violations_of now xs rule ≡ []
IsKept-violations_of now xs rule h = rw (select-none (is_conflicting now rule xs) xs h) refl

scan_rules-IsKept :
    (now : ℕ) (xs : List Assignment) (rules : List SodRule)
    → scan_rules now xs rules ≡ []
    → All (IsKept now xs) rules
scan_rules-IsKept now xs [] h = tt
scan_rules-IsKept now xs (r ∷ rules) h = (
  violations_of-IsKept now xs r (append-nil-left _ (scan_rules now xs rules) h),
  scan_rules-IsKept now xs rules
      (append-nil-right (violations_of now xs r) (scan_rules now xs rules) h),
)

-- The rules that the check lets pass find nothing with the new row either.
scan_rules-append :
    (now : ℕ) (xs : List Assignment) (n : Assignment) (rules : List SodRule)
    → All IsPair rules
    → find (forbids (active_assignments now n.user_id xs) n.role_id) rules ≡ none
    → All (IsKept now xs) rules
    → scan_rules now (xs ++ n ∷ []) rules ≡ []
scan_rules-append now xs n [] pairs pass kept = refl
scan_rules-append now xs n (r ∷ rules) pairs pass kept =
    elim (Bool-cases (forbids (active_assignments now n.user_id xs) n.role_id r)) [
      | inl t ↦ let never = rw t at pass in cc
      | inr f ↦
          let own = IsKept-append now r xs n pairs.0 f kept.0 in
          let rest = scan_rules-append now xs n rules pairs.1 (rw f at pass) kept.1 in
          rw (IsKept-violations_of now (xs ++ n ∷ []) r own) rest
    ]

-- assignRoleToUser brings no conflict of duties about: where the governance scan finds none before
-- it, the scan finds none after it, whether the assignment was made or refused, provided that each
-- rule names two different roles.
pub assign_role_to_user-no_violations :
    (now new_id actor user : ℕ) (dto : AssignUserRoleDto) (s : AuthzStore)
    → All IsPair s.sod_rules
    → detect_sod_violations now s ≡ []
    → detect_sod_violations now (assign_role_to_user now new_id actor user dto s).1 ≡ []
unfolding detect_sod_violations assign_role_to_user check_sod_violation
assign_role_to_user-no_violations now new_id actor user dto s pairs clean =
    let rules = select (λ r. r.active) s.sod_rules in
    let kept = scan_rules-IsKept now s.assignments rules clean in
    let distinct_pairs = All-select IsPair (λ r. r.active) s.sod_rules pairs in
    let n = new_assignment new_id actor user dto in
    elim (Option-cases (check_sod_violation now user dto.role_id s)) [
      | inl passed ↦
          let added = scan_rules-append now s.assignments n rules distinct_pairs passed kept in
          ground arith
      | inr (rule, broken) ↦ ground arith
    ]
