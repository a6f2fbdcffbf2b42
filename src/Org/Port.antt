-- ===== src/Org/Port.antt =====
-- What the services that ask `isSubordinateTo` rely on, and the position table that provides it.
use coes_platform.Base.{ℕ, Bool, true, List, ◌≡◌}
use coes_platform.Org.{Position, has_position, is_subordinate_to}
use coes_platform.Org.Grounded.{IsGrounded}
use coes_platform.Org.Authority.{is_subordinate_to_refl, is_subordinate_to_trans}

pub record CommandChain : Type 0 where
  pub known : ℕ → Bool
  pub is_subordinate_to : ℕ → ℕ → Bool
  pub subordinate_refl : (k : ℕ) → known k ≡ true → is_subordinate_to k k ≡ true
  pub subordinate_trans :
      (a b c : ℕ)
      → is_subordinate_to a b ≡ true
      → is_subordinate_to b c ≡ true
      → is_subordinate_to a c ≡ true

-- A grounded table of positions is a chain of command.
unfoldable pub command_chain_of : (ps : List Position) → IsGrounded ps → CommandChain
command_chain_of ps grounded = record {
  known = has_position ps;
  is_subordinate_to = is_subordinate_to ps;
  subordinate_refl = λ k. is_subordinate_to_refl ps k grounded;
  subordinate_trans = is_subordinate_to_trans ps;
}
