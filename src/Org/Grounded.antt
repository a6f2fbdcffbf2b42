-- ===== src/Org/Grounded.antt =====
-- The rows of the position table are grounded: each superior is an older row.
use coes_platform.Base.{ℕ, ◌≡◌, true, false, Option, none, some, List, [], ◌∷◌, arith}
use coes_platform.Org.{Position, OrgStore, CreatePositionDto, has_position, create_position}

-- The superior is one of the rows.
abbrev pub Known : Option ℕ → List Position → Type 0
Known none ps = Unit
Known (some q) ps = has_position ps q ≡ true

abbrev pub IsGrounded : List Position → Type 0
IsGrounded [] = Unit
IsGrounded (p ∷ ps) = (has_position ps p.id ≡ false) × Known p.reports_to_id ps × IsGrounded ps

-- A position created under a fresh id leaves the table grounded, also when it is refused.
pub create_position-IsGrounded :
    (new_id : ℕ) (dto : CreatePositionDto) (s : OrgStore)
    → has_position s.positions new_id ≡ false
    → IsGrounded s.positions
    → IsGrounded (create_position new_id dto s).1.positions
unfolding create_position
create_position-IsGrounded new_id dto s fresh g = ground arith
