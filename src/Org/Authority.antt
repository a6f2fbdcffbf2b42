-- ===== src/Org/Authority.antt =====
-- The relation of `isSubordinateTo`: reflexive and transitive.
use native.Mathlib.Decide.{ℕ_discrete}
use coes_platform.Base.{
  ℕ, zero, suc, ◌≡◌, true, some, List, [], ◌∷◌, arith, ◌==◌, find, any, Bool-cases, Option-cases,
  inl, inr, length, subst,
}
use coes_platform.Org.{Position, has_position, command_chain, is_subordinate_to}
use coes_platform.Org.Chain.{command_chain_ends}
use coes_platform.Org.Grounded.{IsGrounded}

-- The row that is found under an id has that id.
find-id : (ps : List Position) (k : ℕ) (p : Position) → find (λ x. x.id == k) ps ≡ some p → p.id ≡ k
find-id [] k p e = cc
find-id (x ∷ ps) k p e = elim (Bool-cases (x.id == k)) [
  | inl t ↦
      let same : x ≡ p = ground arith in subst (λ (y : Position). y.id ≡ k) same (ground arith)
  | inr f ↦ find-id ps k p (rw f at e)
]

-- Two runs that end give the same chain, whatever their fuel.
command_chain_unique :
    (f g : ℕ) (ps : List Position) (k : ℕ) {c d : List Position}
    → command_chain f ps k ≡ some c
    → command_chain g ps k ≡ some d
    → c ≡ d
unfolding command_chain
command_chain_unique zero g ps k ec ed = cc
command_chain_unique (suc f) zero ps k ec ed = cc
command_chain_unique (suc f) (suc g) ps k ec ed = elim (Option-cases (find (λ p. p.id == k) ps)) [
  | inl e ↦ ground arith
  | inr (p, e) ↦ elim (Option-cases p.reports_to_id) [
    | inl top ↦ ground arith
    | inr (q, r) ↦ elim (Option-cases (command_chain f ps q)) [
      | inl n ↦ absurd (ground arith)
      | inr (c', nc) ↦ elim (Option-cases (command_chain g ps q)) [
        | inl n ↦ absurd (ground arith)
        | inr (d', nd) ↦ let same = command_chain_unique f g ps q nc nd in ground arith
      ]
    ]
  ]
]

-- Everyone on the chain of a position that stands on a chain stands on that chain.
command_chain_above :
    (f g : ℕ) (ps : List Position) (a b k : ℕ) {c d : List Position}
    → command_chain f ps a ≡ some c
    → command_chain g ps b ≡ some d
    → any (λ p. p.id == b) c ≡ true
    → any (λ p. p.id == k) d ≡ true
    → any (λ p. p.id == k) c ≡ true
unfolding command_chain
command_chain_above zero g ps a b k ea eb hb hk = cc
command_chain_above (suc f) g ps a b k {c} {d} ea eb hb hk = elim (ℕ_discrete a b) [
  | yes same ↦
      let equal : c ≡ d = command_chain_unique (suc f) g ps b (rw same at ea) eb in rw equal hk
  | no other ↦ elim (Option-cases (find (λ p. p.id == a) ps)) [
    | inl e ↦ absurd (ground arith)
    | inr (p, e) ↦
        let own = find-id ps a p e in
        elim (Option-cases p.reports_to_id) [
          | inl top ↦ absurd (ground arith)
          | inr (q, r) ↦ elim (Option-cases (command_chain f ps q)) [
            | inl n ↦ absurd (ground arith)
            | inr (c', n) ↦
                let listed : c ≡ p ∷ c' = ground arith in
                let below : any (λ x. x.id == b) (p ∷ c') ≡ true =
                  subst (λ l. any (λ x. x.id == b) l ≡ true) listed hb in
                let higher : any (λ x. x.id == b) c' ≡ true = ground arith in
                let found = command_chain_above f g ps q b k n eb higher hk in
                rw listed (ground arith)
          ]
        ]
  ]
]

-- In a grounded table a position of the table is subordinate to itself.
pub is_subordinate_to_refl :
    (ps : List Position) (k : ℕ)
    → IsGrounded ps
    → has_position ps k ≡ true
    → is_subordinate_to ps k k ≡ true
unfolding is_subordinate_to command_chain
is_subordinate_to_refl ps k g h =
    let (c, ends) = command_chain_ends ps k g in
    elim (Option-cases (find (λ p. p.id == k) ps)) [
      | inl e ↦ absurd (ground arith)
      | inr (p, e) ↦
          let own = find-id ps k p e in
          elim (Option-cases p.reports_to_id) [
            | inl top ↦ ground arith
            | inr (q, r) ↦ elim (Option-cases (command_chain (length ps) ps q)) [
              | inl n ↦ absurd (ground arith)
              | inr (c', n) ↦ ground arith
            ]
          ]
    ]

-- Subordination is transitive.
pub is_subordinate_to_trans :
    (ps : List Position) (a b c : ℕ)
    → is_subordinate_to ps a b ≡ true
    → is_subordinate_to ps b c ≡ true
    → is_subordinate_to ps a c ≡ true
unfolding is_subordinate_to
is_subordinate_to_trans ps a b c hab hbc =
    elim (Option-cases (command_chain (suc (length ps)) ps a)) [
      | inl n ↦ absurd (ground arith)
      | inr (x, ex) ↦ elim (Option-cases (command_chain (suc (length ps)) ps b)) [
        | inl n ↦ absurd (ground arith)
        | inr (y, ey) ↦
            let found =
              command_chain_above (suc (length ps)) (suc (length ps)) ps a b c ex ey (ground arith)
                (ground arith) in
            ground arith
      ]
    ]
