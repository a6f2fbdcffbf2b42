-- ===== src/Base/Action.antt =====
-- Methods that read and write the stores of a service and may throw. What is written before an
-- exception stays written: the services open no transaction.
use mathlib.Core.Path.{◌≡◌, refl, sym, subst}
use mathlib.Core.Bool.{Bool, true, false}
use mathlib.Core.Option.{Option, none, some}
use mathlib.Core.List.{List, [], ◌∷◌}
use coes_platform.Base.Lists.{All}

-- The HTTP exceptions of NestJS, the failure of a write that the database refuses, and what a handler
-- throws that is thrown on. The messages are left out.
pub data Exception : Type 0 where
  not_found bad_request forbidden conflict query_failed handler_failed : Exception

pub data Result {ℓ} (A : Type ℓ) : Type ℓ where
  return : A → Result A
  raise : Exception → Result A

abbrev pub Action {ℓ κ} : Type ℓ → Type κ → Type (ℓ ⊔ κ)
Action S A = S → Result A × S

module _ {ℓ κ μ} {S : Type ℓ} {A : Type κ} {B : Type μ} where
  abbrev pub and_then : Result A × S → (A → Action S B) → Result B × S
  and_then (return a, s) f = f a s
  and_then (raise e, s) f = (raise e, s)

  infixl 5 ◌>>=◌
  abbrev pub ◌>>=◌ : Action S A → (A → Action S B) → Action S B
  ◌>>=◌ m f s = and_then (m s) f

module _ {ℓ κ} {S : Type ℓ} {B : Type κ} where
  infixl 5 ◌>>◌
  abbrev pub ◌>>◌ : Action S (Unit {0}) → Action S B → Action S B
  m >> k = m >>= λ _. k

module _ {ℓ} {S : Type ℓ} where
  abbrev pub get : Action S S
  get s = (return s, s)

  abbrev pub modify : (S → S) → Action S (Unit {0})
  modify f s = (return tt, f s)

  abbrev pub skip : Action S (Unit {0})
  skip s = (return tt, s)

  -- `if (test) throw e`.
  abbrev pub throw_if : Bool → Exception → Action S (Unit {0})
  throw_if true e s = (raise e, s)
  throw_if false e s = (return tt, s)

  -- `if (test) body`.
  abbrev pub when : Bool → Action S (Unit {0}) → Action S (Unit {0})
  when true body s = body s
  when false body s = (return tt, s)

module _ {ℓ κ} {S : Type ℓ} {A : Type κ} where
  abbrev pub pure : A → Action S A
  pure a s = (return a, s)

  abbrev pub throw : Exception → Action S A
  throw e s = (raise e, s)

  -- `if (!found) throw e`.
  abbrev pub require : Option A → Exception → Action S A
  require none e s = (raise e, s)
  require (some a) e s = (return a, s)

-- An action that returns passes its state on.
and_then-eq {ℓ κ} :
    {S : Type ℓ} {B : Type κ} (o : Result (Unit {0}) × S) (next : Action S B)
    → o.0 ≡ return tt
    → and_then o (λ _. next) ≡ next o.1
and_then-eq (return u, t) next e = refl
and_then-eq (raise x, t) next e = cc

pub >>-eq {ℓ κ} :
    {S : Type ℓ} {B : Type κ} (m : Action S (Unit {0})) (next : Action S B) (s : S)
    → (m s).0 ≡ return tt
    → (m >> next) s ≡ next (m s).1
>>-eq m next s e = and_then-eq (m s) next e

-- The second of two actions keeps what holds after the first, if it ran.
after {ℓ κ} :
    {S : Type ℓ} (P : S → Type κ) (o : Result (Unit {0}) × S) (next : Action S (Unit {0}))
    → P o.1
    → ((s : S) → P s → P (next s).1)
    → P (and_then o (λ _. next)).1
after P (return u, t) next h keep = keep t h
after P (raise e, t) next h keep = h

module _ {ℓ κ} {S : Type ℓ} {A : Type κ} where
  -- `for (const x of xs) await body(x)`.
  abbrev pub for_each : (A → Action S (Unit {0})) → List A → Action S (Unit {0})
  for_each body [] = skip
  for_each body (x ∷ xs) = body x >> for_each body xs

  -- What each round keeps, for the elements at hand, the loop keeps.
  pub for_each_inv {μ ν} :
      (Q : A → Type ν) (P : S → Type μ) (body : A → Action S (Unit {0}))
      → ((x : A) (s : S) → Q x → P s → P (body x s).1)
      → (xs : List A) (s : S) → All Q xs
      → P s
      → P (for_each body xs s).1
  for_each_inv Q P body keep [] s q h = h
  for_each_inv Q P body keep (x ∷ xs) s q h =
      after P (body x s) (for_each body xs) (keep x s q.0 h)
        (λ t p. for_each_inv Q P body keep xs t q.1 p)

-- What an action keeps, and whatever runs on its result keeps, the two keep.
pub and_then-keeps {ℓ κ μ ν} :
    {S : Type ℓ} {A : Type κ} {B : Type μ} (P : S → Type ν) (o : Result A × S) (f : A → Action S B)
    → P o.1
    → ((a : A) (s : S) → P s → P (f a s).1)
    → P (and_then o f).1
and_then-keeps P (return a, t) f h keep = keep a t h
and_then-keeps P (raise e, t) f h keep = h

-- A guard before an action.
pub guard-keeps {ℓ κ μ} :
    {S : Type ℓ} {B : Type κ} (P : S → Type μ) (test : Bool) (e : Exception) (next : Action S B)
    (s : S)
    → P s
    → P (next s).1
    → P ((throw_if test e >> next) s).1
guard-keeps P true e next s h k = h
guard-keeps P false e next s h k = k

-- A check reads the store and leaves it alone, and what it returns satisfies P.
module _ {ℓ κ μ} {S : Type ℓ} {A : Type κ} (P : A → Type μ) (s : S) where
  abbrev pub Checks : Result A × S → Type (ℓ ⊔ μ)
  Checks (return a, t) = (t ≡ s) × P a
  Checks (raise e, t) = (t ≡ s) × Unit {μ}

module _ {ℓ} {S : Type ℓ} where
  pub throw_if-Checks :
      (test : Bool) (e : Exception) (s : S) → Checks (λ _. test ≡ false) s (throw_if test e s)
  throw_if-Checks true e s = (refl, tt)
  throw_if-Checks false e s = (refl, refl)

  pub require-Checks {κ} :
      {A : Type κ} (o : Option A) (e : Exception) (s : S)
      → Checks (λ a. o ≡ some a) s (require o e s)
  require-Checks none e s = (refl, tt)
  require-Checks (some a) e s = (refl, refl)

  pub Checks-bind {κ μ ν ξ} :
      {A : Type κ} {B : Type μ} (P : A → Type ν) (Q : B → Type ξ) (s : S) (o : Result A × S)
      (f : A → Action S B)
      → Checks P s o
      → ((a : A) → P a → Checks Q s (f a s))
      → Checks Q s (and_then o f)
  Checks-bind P Q s (return a, t) f h k = subst (λ u. Checks Q s (f a u)) (sym h.0) (k a h.1)
  Checks-bind P Q s (raise e, t) f h k = (h.0, tt)

  pub Checks-weaken {κ μ ν} :
      {A : Type κ} (P : A → Type μ) (Q : A → Type ν) (s : S) (o : Result A × S)
      → ((a : A) → P a → Q a)
      → Checks P s o
      → Checks Q s o
  Checks-weaken P Q s (return a, t) f h = (h.0, f a h.1)
  Checks-weaken P Q s (raise e, t) f h = (h.0, tt)

  -- A check leaves the store as it was.
  pub Checks-state {κ μ} :
      {A : Type κ} (P : A → Type μ) (s : S) (o : Result A × S) → Checks P s o → o.1 ≡ s
  Checks-state P s (return a, t) h = h.0
  Checks-state P s (raise e, t) h = h.0
