-- ===== src/Base/Tables.antt =====
-- Tables of rows with ids, and loops that save rows of them again.
use Prim.Native.Nat.{ℕ, ◌≤◌}
use mathlib.Core.Path.{◌≡◌, refl, sym, ap, subst, ◌∙◌}
use mathlib.Core.Logic.{inl, inr}
use mathlib.Core.Bool.{Bool, true, false}
use mathlib.Core.List.{List, [], ◌∷◌, ◌++◌, map}
use mathlib.Core.Option.{some}
use native.Mathlib.Omega.{arith}
use coes_platform.Base.Tests.{◌==◌, if◌then◌else◌, Bool-cases}
use coes_platform.Base.Lists.{
  All, All-select, All-save_row, All-find, any, find, count, save_row, select,
}

module _ {ℓ} {A : Type ℓ} (id : A → ℕ) where
  -- Saving a row that fails a test leaves no more rows that pass it.
  pub count-save_row :
      (p : A → Bool) (r : A) (xs : List A) → p r ≡ false → count p (save_row id r xs) ≤ count p xs
  count-save_row p r [] h = ground arith
  count-save_row p r (x ∷ xs) h = ground (arith, count-save_row p r xs h)

  -- `for (const row of rows) { …; save(f(row)) }`.
  abbrev pub save_all : (A → A) → List A → List A → List A
  save_all f [] table = table
  save_all f (x ∷ xs) table = save_all f xs (save_row id (f x) table)

  -- The ids of the rows are pairwise different.
  abbrev pub HasIds : List A → Type 0
  HasIds [] = Unit
  HasIds (x ∷ xs) = All (λ y. (id y == id x) ≡ false) xs × HasIds xs

  abbrev pub update_where : (A → Bool) → (A → A) → List A → List A
  update_where p f [] = []
  update_where p f (x ∷ xs) = (if p x then f x else x) ∷ update_where p f xs

  -- Saving the row that one test finds keeps a row that passes another test, if the found row
  -- does not.
  pub any-save_row :
      (p q : A → Bool) (r r' : A) (xs : List A)
      → HasIds xs
      → any p xs ≡ true
      → find q xs ≡ some r
      → p r ≡ false
      → id r' ≡ id r
      → any p (save_row id r' xs) ≡ true
  any-save_row p q r r' [] ids some_p found off same = ground arith
  any-save_row p q r r' (x ∷ xs) ids some_p found off same = elim (Bool-cases (q x)) [
    | inl t ↦ ground arith
    | inr g ↦
        let later : find q xs ≡ some r = ground arith in
        let apart : (id r == id x) ≡ false =
          All-find (λ y. (id y == id x) ≡ false) q xs ids.0 later in
        elim (Bool-cases (p x)) [
          | inl t ↦ ground arith
          | inr h ↦
              let rest : any p xs ≡ true = ground arith in
              let kept = any-save_row p q r r' xs ids.1 rest later off same in ground arith
        ]
  ]

module _ {ℓ} {A : Type ℓ} (id : A → ℕ) (f : A → A) (same : (x : A) → id (f x) ≡ id x) where
  save_all-other :
      (y : A) (xs table : List A)
      → All (λ x. (id x == id y) ≡ false) xs
      → save_all id f xs (y ∷ table) ≡ y ∷ save_all id f xs table
  save_all-other y [] table h = refl
  save_all-other y (x ∷ xs) table h =
      let moved = save_all-other y xs (save_row id (f x) table) h.1 in
      let kept = same x in
      let other : (id y == id (f x)) ≡ false = let k = h.0 in ground arith in rw other moved

  -- Saving every selected row again, changed, changes those rows and no other.
  pub save_all-select :
      (p : A → Bool) (table : List A)
      → HasIds id table
      → save_all id f (select p table) table ≡ update_where id p f table
  save_all-select p [] h = refl
  save_all-select p (x ∷ xs) h = elim (Bool-cases (p x)) [
    | inl t ↦
        let kept = same x in
        let own : (id x == id (f x)) ≡ true = ground arith in
        let apart : All (λ y. (id y == id (f x)) ≡ false) xs =
          subst (λ k. All (λ y. (id y == k) ≡ false) xs) (sym kept) h.0 in
        let saved : save_row id (f x) (x ∷ xs) ≡ f x ∷ xs = rw own refl in
        rw t (
          ap (save_all id f (select p xs)) saved
          ∙ save_all-other (f x) (select p xs) xs (All-select _ p xs apart)
          ∙ ap (λ rest. f x ∷ rest) (save_all-select p xs h.1))
    | inr g ↦ rw g (
        save_all-other x (select p xs) xs (All-select _ p xs h.0)
        ∙ ap (λ rest. x ∷ rest) (save_all-select p xs h.1))
  ]

  -- Selecting again finds nothing, if a changed row does not pass the test.
  pub select-update_where :
      (p : A → Bool)
      → ((x : A) → p (f x) ≡ false)
      → (table : List A) → select p (update_where id p f table) ≡ []
  select-update_where p off [] = refl
  select-update_where p off (x ∷ xs) = elim (Bool-cases (p x)) [
    | inl t ↦ rw t (rw (off x) (select-update_where p off xs))
    | inr g ↦ rw g (rw g (select-update_where p off xs))
  ]

module _ {ℓ} {A : Type ℓ} (id : A → ℕ) where
  apart-append :
      (k : ℕ) (r : A) (xs : List A)
      → All (λ y. (id y == k) ≡ false) xs
      → (id r == k) ≡ false
      → All (λ y. (id y == k) ≡ false) (xs ++ r ∷ [])
  apart-append k r [] h e = (e, tt)
  apart-append k r (x ∷ xs) h e = (h.0, apart-append k r xs h.1 e)

  -- A row with a new id is added.
  pub HasIds-append :
      (r : A) (xs : List A)
      → any (λ x. id x == id r) xs ≡ false
      → HasIds id xs
      → HasIds id (xs ++ r ∷ [])
  HasIds-append r [] new h = (tt, tt)
  HasIds-append r (x ∷ xs) new h =
      (apart-append (id x) r xs h.0 (ground arith), HasIds-append r xs (ground arith) h.1)

  pub HasIds-select : (p : A → Bool) (xs : List A) → HasIds id xs → HasIds id (select p xs)
  HasIds-select p [] h = tt
  HasIds-select p (x ∷ xs) h = elim (Bool-cases (p x)) [
    | inl t ↦ rw t (All-select _ p xs h.0, HasIds-select p xs h.1)
    | inr f ↦ rw f (HasIds-select p xs h.1)
  ]

  module _ (f : A → A) (same : (x : A) → id (f x) ≡ id x) where
    apart-map :
        (k j : ℕ) (xs : List A)
        → k ≡ j
        → All (λ y. (id y == k) ≡ false) xs
        → All (λ y. (id y == j) ≡ false) (map f xs)
    apart-map k j [] e h = tt
    apart-map k j (x ∷ xs) e h =
        (let s = same x in let o = h.0 in ground arith, apart-map k j xs e h.1)

    -- A change that keeps the ids.
    pub HasIds-map : (xs : List A) → HasIds id xs → HasIds id (map f xs)
    HasIds-map [] h = tt
    HasIds-map (x ∷ xs) h = (apart-map (id x) (id (f x)) xs (sym (same x)) h.0, HasIds-map xs h.1)

module _ {ℓ} {A : Type ℓ} (id : A → ℕ) where
  -- Saving a row.
  pub HasIds-save_row : (r : A) (xs : List A) → HasIds id xs → HasIds id (save_row id r xs)
  HasIds-save_row r [] h = (tt, tt)
  HasIds-save_row r (x ∷ xs) h = elim (Bool-cases (id x == id r)) [
    | inl t ↦
        let same : id x ≡ id r = ground arith in
        rw t (subst (λ k. All (λ y. (id y == k) ≡ false) xs) same h.0, h.1)
    | inr f ↦ rw f (
      All-save_row (λ y. (id y == id x) ≡ false) id r xs (ground arith) h.0,
      HasIds-save_row r xs h.1,
    )
  ]

-- Every row that a test takes is changed.
pub All-update {ℓ κ} :
    {A : Type ℓ} (P : A → Type κ) (p : A → Bool) (f : A → A)
    → ((x : A) → P x → P (f x))
    → (xs : List A) → All P xs
    → All P (map (λ x. if p x then f x else x) xs)
All-update P p f keep [] h = tt
All-update P p f keep (x ∷ xs) h = elim (Bool-cases (p x)) [
  | inl t ↦ rw t (keep x h.0, All-update P p f keep xs h.1)
  | inr g ↦ rw g (h.0, All-update P p f keep xs h.1)
]
