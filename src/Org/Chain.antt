-- ===== src/Org/Chain.antt =====
-- `getCommandChain` ends on a grounded table, and does not end on a cycle of superiors.
use coes_platform.Base.{
  ℕ, zero, suc, ◌≡◌, refl, Bool, true, none, some, List, [], ◌∷◌, arith, ◌==◌, find, Bool-cases,
  Option-cases, inl, inr, length, ◌∙◌, ap, subst,
}
use coes_platform.Org.{Position, has_position, command_chain, get_command_chain}
use coes_platform.Org.Grounded.{Known, IsGrounded}

-- In a grounded table the superior of a row is a row.
superior-Known :
    (ps : List Position) (k q : ℕ) (p : Position)
    → IsGrounded ps
    → find (λ x. x.id == k) ps ≡ some p
    → p.reports_to_id ≡ some q
    → has_position ps q ≡ true
superior-Known [] k q p g e r = cc
superior-Known (x ∷ ps) k q p g e r = elim (Bool-cases (x.id == k)) [
  | inl t ↦
      let same : x ≡ p = ground arith in
      let top : x.reports_to_id ≡ some q = ap (λ (y : Position). y.reports_to_id) same ∙ r in
      let known : Known (some q) ps = subst (λ o. Known o ps) top g.1 in ground arith
  | inr f ↦ let old = superior-Known ps k q p g.2 (rw f at e) r in ground arith
]

-- A newer row changes nothing for the rows that are there.
command_chain-cons :
    (fuel : ℕ) (x : Position) (ps : List Position) (k : ℕ)
    → IsGrounded (x ∷ ps)
    → has_position ps k ≡ true
    → command_chain fuel (x ∷ ps) k ≡ command_chain fuel ps k
unfolding command_chain
command_chain-cons zero x ps k g h = refl
command_chain-cons (suc fuel) x ps k g h = elim (Option-cases (find (λ p. p.id == k) ps)) [
  | inl e ↦ absurd (ground arith)
  | inr (p, e) ↦ elim (Option-cases p.reports_to_id) [
    | inl top ↦ ground arith
    | inr (q, r) ↦
        let more = command_chain-cons fuel x ps q g (superior-Known ps k q p g.2 e r) in
        ground arith
  ]
]

-- More fuel gives the same chain.
command_chain-suc :
    (fuel : ℕ) (ps : List Position) (k : ℕ) {chain : List Position}
    → command_chain fuel ps k ≡ some chain
    → command_chain (suc fuel) ps k ≡ some chain
unfolding command_chain
command_chain-suc zero ps k e = cc
command_chain-suc (suc fuel) ps k e = elim (Option-cases (find (λ p. p.id == k) ps)) [
  | inl f ↦ ground arith
  | inr (p, f) ↦ elim (Option-cases p.reports_to_id) [
    | inl top ↦ ground arith
    | inr (q, r) ↦ elim (Option-cases (command_chain fuel ps q)) [
      | inl n ↦ absurd (ground arith)
      | inr (c, n) ↦ let more = command_chain-suc fuel ps q n in ground arith
    ]
  ]
]

-- One round for each position and one more are enough.
pub command_chain_ends :
    (ps : List Position) (k : ℕ)
    → IsGrounded ps
    → (chain : List Position) × (command_chain (suc (length ps)) ps k ≡ some chain)
unfolding command_chain
command_chain_ends [] k g = ([], refl)
command_chain_ends (x ∷ ps) k g = elim (Bool-cases (x.id == k)) [
  | inl t ↦ elim (Option-cases x.reports_to_id) [
    | inl top ↦ (x ∷ [], ground arith)
    | inr (q, r) ↦
        let known : Known (some q) ps = subst (λ o. Known o ps) r g.1 in
        let (c, ends) = command_chain_ends ps q g.2 in
        let later = command_chain-cons (suc (length ps)) x ps q g known ∙ ends in
        (x ∷ c, ground arith)
  ]
  | inr f ↦ elim (Bool-cases (has_position ps k)) [
    | inl known ↦
        let (c, ends) = command_chain_ends ps k g.2 in
        (
          c,
          command_chain-cons (suc (suc (length ps))) x ps k g known
              ∙ command_chain-suc (suc (length ps)) ps k ends,
        )
    | inr unknown ↦ ([], ground arith)
  ]
]

-- On a grounded table the loop of `getCommandChain` ends, whatever position it starts from.
pub get_command_chain_ends :
    (ps : List Position) (k : ℕ)
    → IsGrounded ps
    → (chain : List Position) × (get_command_chain ps k ≡ some chain)
unfolding get_command_chain
get_command_chain_ends ps k g = command_chain_ends ps k g

-- The loop of `getCommandChain` does not end, whatever the fuel, from a position of a set in which
-- each is in the table and has its superior in the set.
pub command_chain_cycle :
    (inside : ℕ → Bool) (ps : List Position)
    → ((k : ℕ)
        → inside k ≡ true
        → (p : Position) × (q : ℕ) × (find (λ x. x.id == k) ps ≡ some p)
          × (p.reports_to_id ≡ some q)
          × (inside q ≡ true))
    → (fuel k : ℕ) → inside k ≡ true
    → command_chain fuel ps k ≡ none
unfolding command_chain
command_chain_cycle inside ps closed zero k h = refl
command_chain_cycle inside ps closed (suc fuel) k h =
    let (p, q, e, r, in_q) = closed k h in
    let more = command_chain_cycle inside ps closed fuel q in_q in ground arith
