-- ===== src/Org.antt =====
-- org.service.ts: departments, positions and the command chain, with the entities of
-- org/entities. A table is a list of rows, the newest first; the id that the database generates
-- for a new row is an argument.
pub mod Grounded
pub mod Chain
pub mod Authority
pub mod Port
pub mod Samples
use coes_platform.Base.{
  ℕ, zero, suc, String, Bool, true, false, not, ◌&&◌, Option, none, some, List, [], ◌∷◌, ◌++◌, map,
  ◌==◌, or_else, is_some, if◌then◌else◌, length, find, any, select,
}
use coes_platform.Base.Action.{
  Action, not_found, return, get, modify, pure, require, throw_if, ◌>>=◌, ◌>>◌,
}
use mathlib.Core.Option

pub data PositionLevel : Type 0 where
  chairman deputy_chairman department_head deputy_head division_head senior_specialist :
      PositionLevel
  specialist analyst operator clerk : PositionLevel

pub PositionLevel-discrete : Discrete PositionLevel
PositionLevel-discrete = hlevel

pub record Department : Type 0 where
  pub id : ℕ
  pub name : String
  pub parent_id : Option ℕ
  pub active : Bool
  pub sort_order : ℕ

pub record Position : Type 0 where
  pub id : ℕ
  pub title : String
  pub level : PositionLevel
  pub department_id : ℕ
  pub reports_to_id : Option ℕ
  pub active : Bool
  pub can_assign_tasks : Bool
  pub can_approve_documents : Bool
  pub can_issue_resolutions : Bool

-- The change history, the domain events and the audit events, in the order of the calls.
pub data OrgEvent : Type 0 where
  department_created department_deactivated position_created : (entity : ℕ) → OrgEvent
  department_created_event department_deactivated_event : (department : ℕ) → OrgEvent
  position_created_event : (position department : ℕ) → OrgEvent
  department_created_audit department_deactivated_audit position_created_audit : ℕ → OrgEvent

pub record OrgStore : Type 0 where
  pub departments : List Department
  pub positions : List Position
  pub log : List OrgEvent

pub record CreateDepartmentDto : Type 0 where
  pub name : String
  pub parent_id : Option ℕ
  pub sort_order : Option ℕ

pub record CreatePositionDto : Type 0 where
  pub title : String
  pub level : PositionLevel
  pub department_id : ℕ
  pub reports_to_id : Option ℕ
  pub can_assign_tasks : Option Bool
  pub can_approve_documents : Option Bool
  pub can_issue_resolutions : Option Bool

abbrev pub has_position : List Position → ℕ → Bool
has_position ps k = is_some (find (λ p. p.id == k) ps)

abbrev pub record_org : List OrgEvent → Action OrgStore (Unit {0})
record_org events = modify (λ s. record s { log = s.log ++ events })

-- `if (dto.parentId)`: the parent must exist and be active.
abbrev check_parent : Option ℕ → Action OrgStore (Unit {0})
check_parent none s = (return tt, s)
check_parent (some k) s =
    throw_if (not (is_some (find (λ d. d.id == k && d.active) s.departments))) not_found s

unfoldable pub create_department : ℕ → CreateDepartmentDto → Action OrgStore Department
create_department new_id dto = do
  check_parent dto.parent_id
  let saved : Department = record {
    id = new_id;
    name = dto.name;
    parent_id = dto.parent_id;
    active = true;
    sort_order = or_else dto.sort_order 0;
  }
  modify (λ s. record s { departments = saved ∷ s.departments })
  record_org (
      department_created new_id
      ∷ department_created_event new_id
      ∷ department_created_audit new_id
      ∷ [])
  pure saved

unfoldable pub get_department_by_id : ℕ → Action OrgStore Department
get_department_by_id k = do s ← get; require (find (λ d. d.id == k) s.departments) not_found

-- `update(id, { active: false })`.
abbrev pub deactivate : ℕ → List Department → List Department
deactivate k = map (λ d. if d.id == k then record d { active = false } else d)

unfoldable pub deactivate_department : ℕ → Action OrgStore (Unit {0})
unfolding get_department_by_id
deactivate_department k = do
  dept ← get_department_by_id k
  modify (λ s. record s { departments = deactivate k s.departments })
  record_org (
      department_deactivated k
      ∷ department_deactivated_event k
      ∷ department_deactivated_audit k
      ∷ [])

-- `if (dto.reportsToId)`: the superior must exist.
abbrev check_superior : Option ℕ → Action OrgStore (Unit {0})
check_superior none s = (return tt, s)
check_superior (some k) s = throw_if (not (has_position s.positions k)) not_found s

unfoldable pub create_position : ℕ → CreatePositionDto → Action OrgStore Position
create_position new_id dto = do
  before ← get
  throw_if (not (is_some (find (λ d. d.id == dto.department_id && d.active) before.departments)))
      not_found
  check_superior dto.reports_to_id
  let saved : Position = record {
    id = new_id;
    title = dto.title;
    level = dto.level;
    department_id = dto.department_id;
    reports_to_id = dto.reports_to_id;
    active = true;
    can_assign_tasks = or_else dto.can_assign_tasks false;
    can_approve_documents = or_else dto.can_approve_documents false;
    can_issue_resolutions = or_else dto.can_issue_resolutions false;
  }
  modify (λ s. record s { positions = saved ∷ s.positions })
  record_org (
      position_created new_id
      ∷ position_created_event new_id dto.department_id
      ∷ position_created_audit new_id
      ∷ [])
  pure saved

unfoldable pub get_position_by_id : ℕ → Action OrgStore Position
get_position_by_id k = do s ← get; require (find (λ p. p.id == k) s.positions) not_found

-- The two lists come in table order: the sort by level and title is the database's.
unfoldable pub get_all_active_positions : List Position → List Position
get_all_active_positions ps = select (λ p. p.active) ps

unfoldable pub get_positions_by_department : List Position → ℕ → List Position
get_positions_by_department ps k = select (λ p. p.department_id == k && p.active) ps

-- One round of the `while` of `getCommandChain`, with what the rounds after it push.
abbrev pub push_position :
    Position → (ℕ → Option (List Position)) → Option ℕ → Option (List Position)
push_position p rest none = some (p ∷ [])
push_position p rest (some q) = Option.map (λ chain. p ∷ chain) (rest q)

abbrev pub chain_round : (ℕ → Option (List Position)) → Option Position → Option (List Position)
chain_round rest none = some []
chain_round rest (some p) = push_position p rest p.reports_to_id

-- The loop with fuel; `none` means that it is still running.
unfoldable pub command_chain : ℕ → List Position → ℕ → Option (List Position)
command_chain zero ps k = none
command_chain (suc fuel) ps k = chain_round (command_chain fuel ps) (find (λ p. p.id == k) ps)

-- One round for each position, and one for the end.
unfoldable pub get_command_chain : List Position → ℕ → Option (List Position)
unfolding command_chain
get_command_chain ps k = command_chain (suc (length ps)) ps k

abbrev pub on_chain : ℕ → Option (List Position) → Bool
on_chain k none = false
on_chain k (some chain) = any (λ p. p.id == k) chain

unfoldable pub is_subordinate_to : List Position → ℕ → ℕ → Bool
unfolding get_command_chain
is_subordinate_to ps subordinate supervisor = on_chain supervisor (get_command_chain ps subordinate)
