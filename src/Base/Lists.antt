-- ===== src/Base/Lists.antt =====
-- Lists by native numbers, Boolean quantifiers, and a table of rows with its keyed write.
use Prim.Native.Nat.{ℕ, zero, suc, ◌+◌}
use mathlib.Core.Path.{◌≡◌, subst}
use mathlib.Core.Bool.{Bool, true, false, ◌&&◌, ◌||◌}
use mathlib.Core.Option.{Option, none, some}
use mathlib.Core.List.{List, [], ◌∷◌, ◌++◌}
use native.Mathlib.Omega.{arith}
use coes_platform.Base.Tests.{◌==◌, leb, if◌then◌else◌, Bool-cases}
use mathlib.Core.Logic.{inl, inr}

module _ {ℓ} {A : Type ℓ} where
  abbrev pub length : List A → ℕ
  length [] = 0
  length (x ∷ xs) = suc (length xs)

  pub length-append : (xs ys : List A) → length (xs ++ ys) ≡ length xs + length ys
  length-append [] ys = omega arith
  length-append (x ∷ xs) ys = omega (arith, length-append xs ys)

  -- `findOne`: the first row that the test takes.
  abbrev pub find : (A → Bool) → List A → Option A
  find p [] = none
  find p (x ∷ xs) = if p x then some x else find p xs

  abbrev pub any : (A → Bool) → List A → Bool
  any p [] = false
  any p (x ∷ xs) = p x || any p xs

  abbrev pub all : (A → Bool) → List A → Bool
  all p [] = true
  all p (x ∷ xs) = p x && all p xs

  -- `find` with a `where`: the rows that the test takes.
  abbrev pub select : (A → Bool) → List A → List A
  select p [] = []
  select p (x ∷ xs) = let rest = select p xs in if p x then x ∷ rest else rest

  abbrev pub count : (A → Bool) → List A → ℕ
  count p [] = 0
  count p (x ∷ xs) = let rest = count p xs in if p x then suc rest else rest

  abbrev pub take : ℕ → List A → List A
  take zero xs = []
  take (suc n) [] = []
  take (suc n) (x ∷ xs) = x ∷ take n xs

  -- `[...xs].sort((l, r) => key(l) - key(r))[0]`: the first of those with the least key.
  abbrev pub pick_least : (A → ℕ) → A → Option A → Option A
  pick_least key x none = some x
  pick_least key x (some y) = if leb (key x) (key y) then some x else some y

  abbrev pub least_by : (A → ℕ) → List A → Option A
  least_by key [] = none
  least_by key (x ∷ xs) = pick_least key x (least_by key xs)

  -- The same for the greatest key.
  abbrev pub pick_greatest : (A → ℕ) → A → Option A → Option A
  pick_greatest key x none = some x
  pick_greatest key x (some y) = if leb (key y) (key x) then some x else some y

  abbrev pub greatest_by : (A → ℕ) → List A → Option A
  greatest_by key [] = none
  greatest_by key (x ∷ xs) = pick_greatest key x (greatest_by key xs)

  -- A predicate of every element, by recursion.
  abbrev pub All {κ} : (A → Type κ) → List A → Type κ
  All P [] = Unit
  All P (x ∷ xs) = P x × All P xs

module _ {ℓ} {A : Type ℓ} (id : A → ℕ) where
  -- `save`: writes over the row with that id, or adds the row.
  abbrev pub save_row : A → List A → List A
  save_row r [] = r ∷ []
  save_row r (x ∷ xs) = if id x == id r then r ∷ xs else x ∷ save_row r xs

module _ {ℓ κ} {A : Type ℓ} (P : A → Type κ) where
  pub All-append : (xs ys : List A) → All P xs → All P ys → All P (xs ++ ys)
  All-append [] ys hx hy = hy
  All-append (x ∷ xs) ys hx hy = (hx.0, All-append xs ys hx.1 hy)

  pub All-find : (p : A → Bool) (xs : List A) {r : A} → All P xs → find p xs ≡ some r → P r
  All-find p [] h e = cc
  All-find p (x ∷ xs) {r} h e = elim (Bool-cases (p x)) [
    | inl t ↦ subst P {x = x} (ground arith) h.0
    | inr f ↦ All-find p xs h.1 (rw f at e)
  ]

  pub All-select : (p : A → Bool) (xs : List A) → All P xs → All P (select p xs)
  All-select p [] h = tt
  All-select p (x ∷ xs) h = elim (Bool-cases (p x)) [
    | inl t ↦ rw t (h.0, All-select p xs h.1)
    | inr f ↦ rw f (All-select p xs h.1)
  ]

  pub All-take : (n : ℕ) (xs : List A) → All P xs → All P (take n xs)
  All-take zero xs h = tt
  All-take (suc n) [] h = tt
  All-take (suc n) (x ∷ xs) h = (h.0, All-take n xs h.1)

  pub All-save_row : (id : A → ℕ) (r : A) (xs : List A) → P r → All P xs → All P (save_row id r xs)
  All-save_row id r [] hr h = (hr, tt)
  All-save_row id r (x ∷ xs) hr h = elim (Bool-cases (id x == id r)) [
    | inl t ↦ rw t (hr, h.1)
    | inr f ↦ rw f (h.0, All-save_row id r xs hr h.1)
  ]

module _ {ℓ} {A : Type ℓ} (id : A → ℕ) where
  -- Looking a row up by its id after a write.
  pub find-save_row :
      (k : ℕ) (r : A) (xs : List A)
      → find (λ x. id x == k) (save_row id r xs)
        ≡ (if id r == k then some r else find (λ x. id x == k) xs)
  find-save_row k r [] = ground arith
  find-save_row k r (x ∷ xs) = ground (arith, find-save_row k r xs)

module _ {ℓ} {A : Type ℓ} (p : A → Bool) where
  pub find-passes : (xs : List A) {r : A} → find p xs ≡ some r → p r ≡ true
  find-passes [] e = cc
  find-passes (x ∷ xs) {r} e = elim (Bool-cases (p x)) [
    | inl t ↦ subst (λ y. p y ≡ true) {x = x} (ground arith) t
    | inr f ↦ find-passes xs (rw f at e)
  ]

  -- What is selected passes the test.
  pub select-All : (xs : List A) → All (λ x. p x ≡ true) (select p xs)
  select-All [] = tt
  select-All (x ∷ xs) = elim (Bool-cases (p x)) [
    | inl t ↦ rw t (t, select-All xs)
    | inr f ↦ rw f (select-All xs)
  ]

module _ {ℓ κ μ} {A : Type ℓ} (P : A → Type κ) (Q : A → Type μ) where
  pub All-map : ((x : A) → P x → Q x) → (xs : List A) → All P xs → All Q xs
  All-map f [] h = tt
  All-map f (x ∷ xs) h = (f x h.0, All-map f xs h.1)

  pub All-both : (xs : List A) → All P xs → All Q xs → All (λ x. P x × Q x) xs
  All-both [] h k = tt
  All-both (x ∷ xs) h k = ((h.0, k.0), All-both xs h.1 k.1)

-- The premise of a loop whose rounds need none.
pub every {ℓ} : {A : Type ℓ} (xs : List A) → All (λ _. Unit {0}) xs
every [] = tt
every (x ∷ xs) = (tt, every xs)
