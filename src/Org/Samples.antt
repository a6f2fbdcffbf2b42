-- ===== src/Org/Samples.antt =====
-- A small organisation, and what the org service does on it.
use coes_platform.Base.{
  ℕ, zero, suc, Bool, true, false, Option, none, some, List, [], ◌∷◌, ◌≡◌, refl, ◌==◌, find,
}
use coes_platform.Base.Action.{raise, not_found}
use coes_platform.Org.{
  Position, Department, OrgStore, CreatePositionDto, specialist, create_position, command_chain,
  get_command_chain, is_subordinate_to,
}
use coes_platform.Org.Grounded.{IsGrounded, create_position-IsGrounded}
use coes_platform.Org.Chain.{get_command_chain_ends, command_chain_cycle}
use coes_platform.Org.Authority.{is_subordinate_to_trans}

abbrev officer : ℕ → Option ℕ → Position
officer k above = record {
  id = k;
  title = "officer";
  level = specialist;
  department_id = 1;
  reports_to_id = above;
  active = true;
  can_assign_tasks = true;
  can_approve_documents = false;
  can_issue_resolutions = false;
}

-- 3 and 4 report to 2, and 2 to 1.
abbrev pub officers : List Position
officers = officer 4 (some 2) ∷ officer 3 (some 2) ∷ officer 2 (some 1) ∷ officer 1 none ∷ []

pub officers-IsGrounded : IsGrounded officers
officers-IsGrounded = (refl, refl, (refl, refl, (refl, refl, (refl, tt, tt))))

abbrev headquarters : Department
headquarters = record {
  id = 1;
  name = "headquarters";
  parent_id = none;
  active = true;
  sort_order = 0;
}

abbrev office : OrgStore
office = record { departments = headquarters ∷ []; positions = officers; log = [] }

abbrev clerk_dto : (department_id : ℕ) → CreatePositionDto
clerk_dto k = record {
  title = "clerk";
  level = specialist;
  department_id = k;
  reports_to_id = some 3;
  can_assign_tasks = none;
  can_approve_documents = none;
  can_issue_resolutions = none;
}

program : Unit {0}
unfolding create_position command_chain get_command_chain is_subordinate_to
program = tt

chain_of_3 :
    get_command_chain officers 3
    ≡ some (officer 3 (some 2) ∷ officer 2 (some 1) ∷ officer 1 none ∷ [])
unfolding program
chain_of_3 = refl

not_below_a_peer : is_subordinate_to officers 3 4 ≡ false
unfolding program
not_below_a_peer = refl

unknown_department : create_position 5 (clerk_dto 9) office ≡ (raise not_found, office)
unfolding program
unknown_department = refl

-- Two positions that report to each other.
abbrev rivals : List Position
rivals = officer 2 (some 1) ∷ officer 1 (some 2) ∷ []

abbrev is_rival : ℕ → Bool
is_rival zero = false
is_rival (suc zero) = true
is_rival (suc (suc zero)) = true
is_rival (suc (suc (suc k))) = false

rivals_closed :
    (k : ℕ)
    → is_rival k ≡ true
    → (p : Position) × (q : ℕ) × (find (λ x. x.id == k) rivals ≡ some p)
      × (p.reports_to_id ≡ some q)
      × (is_rival q ≡ true)
rivals_closed zero h = cc
rivals_closed (suc zero) h = (officer 1 (some 2), 2, refl, refl, refl)
rivals_closed (suc (suc zero)) h = (officer 2 (some 1), 1, refl, refl, refl)
rivals_closed (suc (suc (suc k))) h = cc

create_position-IsGrounded_example : IsGrounded (create_position 5 (clerk_dto 1) office).1.positions
create_position-IsGrounded_example =
    create_position-IsGrounded 5 (clerk_dto 1) office refl officers-IsGrounded

get_command_chain_ends_example : (c : List Position) × (get_command_chain officers 4 ≡ some c)
get_command_chain_ends_example = get_command_chain_ends officers 4 officers-IsGrounded

command_chain_cycle_example : command_chain 100 rivals 1 ≡ none
command_chain_cycle_example = command_chain_cycle is_rival rivals rivals_closed 100 1 refl

three_below_two : is_subordinate_to officers 3 2 ≡ true
unfolding program
three_below_two = refl

two_below_one : is_subordinate_to officers 2 1 ≡ true
unfolding program
two_below_one = refl

is_subordinate_to_trans_example : is_subordinate_to officers 3 1 ≡ true
is_subordinate_to_trans_example =
    is_subordinate_to_trans officers 3 2 1 three_below_two two_below_one
