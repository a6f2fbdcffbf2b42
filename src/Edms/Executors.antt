-- ===== src/Edms/Executors.antt =====
-- The entities of resolutions and of their execution (modules/edms/entities), and
-- the tables of resolution.service.ts.
use coes_platform.Base.{
  ℕ, String, Bool, true, false, ◌||◌, Option, List, ◌++◌, ◌==◌, find, save_row,
}
use coes_platform.Base.Action.{Action, modify}
use coes_platform.Edms.State.{Document}

pub data ExecutorStatus : Type 0 where
  assigned accepted in_progress completed overdue returned cancelled : ExecutorStatus

pub data ExecutorRole : Type 0 where
  primary co_executor : ExecutorRole

pub data ResolutionPriority : Type 0 where
  routine urgent emergency : ResolutionPriority

pub data ExtensionStatus : Type 0 where
  pending approved denied : ExtensionStatus

pub record Resolution : Type 0 where
  pub id : ℕ
  pub document_id : ℕ
  pub workflow_step_id : Option ℕ
  pub issuing_position_id : ℕ
  pub issuing_user_id : ℕ
  pub text : String
  pub priority : ResolutionPriority
  pub deadline : Option ℕ

pub record ExecutorAssignment : Type 0 where
  pub id : ℕ
  pub resolution_id : ℕ
  pub document_id : ℕ
  pub position_id : ℕ
  pub assigned_user_id : Option ℕ
  pub executor_role : ExecutorRole
  pub instruction : Option String
  pub status : ExecutorStatus
  pub deadline : Option ℕ
  pub parent_assignment_id : Option ℕ
  pub linked_task_id : Option ℕ
  pub completion_report : Option String
  pub completed_at : Option ℕ

pub record ExtensionRequest : Type 0 where
  pub id : ℕ
  pub assignment_id : ℕ
  pub document_id : ℕ
  pub requester_position_id : ℕ
  pub requester_id : ℕ
  pub current_deadline : ℕ
  pub requested_deadline : ℕ
  pub justification : String
  pub status : ExtensionStatus
  pub reviewed_by_id : Option ℕ
  pub reviewed_by_position_id : Option ℕ
  pub review_remarks : Option String
  pub reviewed_at : Option ℕ

-- Workflow history, audit events, emitted and published events, in the order of the calls.
pub data ResolutionEvent : Type 0 where
  resolution_issued_history resolution_issued_audit : (resolution : ℕ) → ResolutionEvent
  resolution_issued_published : (resolution : ℕ) → List ℕ → ResolutionEvent
  completed_history completed_audit accepted_history accepted_audit : ℕ → ResolutionEvent
  in_progress_history all_complete : ℕ → ResolutionEvent
  sub_assignment_history sub_assignment_audit sub_assignment_published :
      (parent sub : ℕ) → ResolutionEvent
  extension_requested extension_approved extension_denied : (request : ℕ) → ResolutionEvent
  overdue_event overdue_history deadline_approaching : (assignment : ℕ) → ResolutionEvent

pub record ResolutionStore : Type 0 where
  pub documents : List Document
  pub resolutions : List Resolution
  pub assignments : List ExecutorAssignment
  pub extensions : List ExtensionRequest
  pub next_id : ℕ
  pub log : List ResolutionEvent

abbrev pub executor_id : ExecutorAssignment → ℕ
executor_id a = a.id

abbrev pub tell : List ResolutionEvent → Action ResolutionStore (Unit {0})
tell events = modify (λ s. record s { log = s.log ++ events })

abbrev pub assignment_of : ℕ → ResolutionStore → Option ExecutorAssignment
assignment_of k s = find (λ a. a.id == k) s.assignments

abbrev pub save_assignment : ExecutorAssignment → Action ResolutionStore (Unit {0})
save_assignment a = modify (λ s. record s { assignments = save_row executor_id a s.assignments })

abbrev pub is_assigned : ExecutorStatus → Bool
is_assigned assigned = true
is_assigned _ = false

abbrev pub is_accepted : ExecutorStatus → Bool
is_accepted accepted = true
is_accepted _ = false

abbrev pub is_completed : ExecutorStatus → Bool
is_completed completed = true
is_completed _ = false

abbrev pub is_cancelled : ExecutorStatus → Bool
is_cancelled cancelled = true
is_cancelled _ = false

abbrev is_returned : ExecutorStatus → Bool
is_returned returned = true
is_returned _ = false

abbrev pub is_primary : ExecutorRole → Bool
is_primary primary = true
is_primary co_executor = false

-- assertAssignmentCanBeCompleted refuses these.
abbrev pub is_ended : ExecutorStatus → Bool
is_ended s = is_completed s || (is_cancelled s || is_returned s)
