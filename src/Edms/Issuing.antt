-- ===== src/Edms/Issuing.antt =====
-- resolution.service.ts: resolutions, and the assignments that they and the executors make. What
-- `isSubordinateTo` answers is a chain of command (Org/Port); who occupies a position is a
-- parameter, the answer of the users service.
use coes_platform.Base.{
  ℕ, suc, String, Bool, true, false, not, ◌||◌, Option, none, some, List, [], ◌∷◌, ◌==◌, all, ltb,
  or_else, map, find, is_some,
}
use coes_platform.Base.Action.{
  Action, not_found, bad_request, forbidden, get, modify, pure, require, throw_if, ◌>>=◌, ◌>>◌,
  for_each,
}
use coes_platform.Edms.State.{Document}
use coes_platform.Edms.Status.{is_closed_to_work}
use coes_platform.Edms.Executors.{
  assigned, ExecutorRole, primary, co_executor, ResolutionPriority, routine, Resolution,
  ExecutorAssignment, resolution_issued_history, resolution_issued_audit,
  resolution_issued_published, sub_assignment_history, sub_assignment_audit,
  sub_assignment_published, ResolutionStore, tell, assignment_of, is_completed, is_cancelled,
  is_primary,
}
use coes_platform.Org.Port.{CommandChain}
use coes_platform.Edms.Documents.{is_visible}

pub record ExecutorDto : Type 0 where
  pub position_id : ℕ
  pub role : Option ExecutorRole
  pub instruction : Option String
  pub deadline : Option ℕ

pub record IssueResolutionDto : Type 0 where
  pub workflow_step_id : Option ℕ
  pub text : String
  pub priority : Option ResolutionPriority
  pub deadline : Option ℕ
  pub executors : List ExecutorDto

pub record SubAssignmentDto : Type 0 where
  pub position_id : ℕ
  pub instruction : Option String
  pub deadline : Option ℕ

-- `a ?? b ?? null`.
abbrev first_given : Option ℕ → Option ℕ → Option ℕ
first_given none b = b
first_given (some a) b = some a

-- getAccessibleDocument, and assertDocumentVisibility after it.
unfoldable pub visible_document : ℕ → ℕ → ℕ → ℕ → Action ResolutionStore Document
visible_document document actor position clearance = do
  s ← get
  d ← require (find (λ d. d.id == document) s.documents) not_found
  throw_if (ltb clearance d.classification) forbidden
  throw_if (not (is_visible d actor (some position))) forbidden
  pure d

abbrev pub new_resolution : ℕ → ℕ → IssueResolutionDto → ℕ → ℕ → Resolution
new_resolution new_id document dto actor position = record {
  id = new_id;
  document_id = document;
  workflow_step_id = dto.workflow_step_id;
  issuing_position_id = position;
  issuing_user_id = actor;
  text = dto.text;
  priority = or_else dto.priority routine;
  deadline = dto.deadline;
}

-- The generated id is the next number of the store.
abbrev pub add_assignment : ExecutorAssignment → Action ResolutionStore (Unit {0})
add_assignment a =
    modify (λ s. record s { assignments = a ∷ s.assignments; next_id = suc s.next_id })

abbrev pub has_none : List ExecutorDto → Bool
has_none [] = true
has_none (e ∷ rest) = false

module _ (chain : CommandChain) (occupant : ℕ → Option ℕ) where
  -- Each executor stands under the issuing position, or is that position.
  abbrev pub has_authority : ℕ → ExecutorDto → Bool
  has_authority position e =
      chain.is_subordinate_to e.position_id position || e.position_id == position

  abbrev pub new_executor : ℕ → ℕ → ℕ → Option ℕ → ExecutorDto → ExecutorAssignment
  new_executor new_id resolution document deadline e = record {
    id = new_id;
    resolution_id = resolution;
    document_id = document;
    position_id = e.position_id;
    assigned_user_id = occupant e.position_id;
    executor_role = or_else e.role primary;
    instruction = e.instruction;
    status = assigned;
    deadline = first_given e.deadline deadline;
    parent_assignment_id = none;
    linked_task_id = none;
    completion_report = none;
    completed_at = none;
  }

  abbrev pub create_executor : ℕ → ℕ → Option ℕ → ExecutorDto → Action ResolutionStore (Unit {0})
  create_executor resolution document deadline e = do
    s ← get
    add_assignment (new_executor s.next_id resolution document deadline e)

  abbrev pub create_resolution :
      ℕ → ℕ → IssueResolutionDto → ℕ → ℕ → Action ResolutionStore Resolution
  create_resolution new_id document dto actor position = do
    let saved = new_resolution new_id document dto actor position
    modify (λ s. record s { resolutions = saved ∷ s.resolutions })
    for_each (create_executor new_id document dto.deadline) dto.executors
    tell (
        resolution_issued_history new_id
        ∷ resolution_issued_audit new_id
        ∷ resolution_issued_published new_id (map (λ e. e.position_id) dto.executors)
        ∷ [])
    pure saved

  unfoldable pub issue_resolution :
      ℕ → ℕ → IssueResolutionDto → ℕ → ℕ → ℕ → Action ResolutionStore Resolution
  unfolding visible_document
  issue_resolution new_id document dto actor position clearance = do
    d ← visible_document document actor position clearance
    throw_if (is_closed_to_work d.status) bad_request
    throw_if (has_none dto.executors) bad_request
    throw_if (not (all (has_authority position) dto.executors)) forbidden
    create_resolution new_id document dto actor position

  abbrev pub sub_executor : ℕ → ExecutorAssignment → SubAssignmentDto → ExecutorAssignment
  sub_executor new_id parent dto = record {
    id = new_id;
    resolution_id = parent.resolution_id;
    document_id = parent.document_id;
    position_id = dto.position_id;
    assigned_user_id = occupant dto.position_id;
    executor_role = co_executor;
    instruction = dto.instruction;
    status = assigned;
    deadline = first_given dto.deadline parent.deadline;
    parent_assignment_id = some parent.id;
    linked_task_id = none;
    completion_report = none;
    completed_at = none;
  }

  unfoldable pub create_sub_assignment :
      ℕ → SubAssignmentDto → ℕ → Action ResolutionStore ExecutorAssignment
  create_sub_assignment k dto position = do
    s ← get
    parent ← require (assignment_of k s) not_found
    throw_if (not (parent.position_id == position)) forbidden
    throw_if (not (is_primary parent.executor_role)) bad_request
    throw_if (is_some parent.parent_assignment_id) bad_request
    throw_if (is_completed parent.status || is_cancelled parent.status) bad_request
    throw_if (not (chain.is_subordinate_to dto.position_id position)) forbidden
    let sub = sub_executor s.next_id parent dto
    add_assignment sub
    tell (
        sub_assignment_history parent.id sub.id
        ∷ sub_assignment_audit parent.id sub.id
        ∷ sub_assignment_published parent.id sub.id
        ∷ [])
    pure sub
