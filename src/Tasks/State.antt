-- ===== src/Tasks/State.antt =====
-- The entities of tasks/entities, the tables of the task service and what it reports. A table
-- lists the newest row first. Dates of deadlines are day numbers, times are milliseconds.
use coes_platform.Base.{ℕ, suc, String, Bool, true, false, Option, List, ◌++◌, ◌==◌, find}
use coes_platform.Base.Action.{Action, return, modify}

pub data TaskStatus : Type 0 where
  draft assigned accepted in_progress on_hold completed verified returned : TaskStatus
  cannot_execute cancelled closed : TaskStatus

pub TaskStatus-discrete : Discrete TaskStatus
TaskStatus-discrete = hlevel

pub data TaskPriority : Type 0 where
  low normal high critical : TaskPriority

pub data TaskSource : Type 0 where
  manual document_generated system_generated : TaskSource

pub data AssignmentType : Type 0 where
  primary co_executor observer : AssignmentType

pub data AssignmentStatus : Type 0 where
  active done removed : AssignmentStatus

pub data ExtensionStatus : Type 0 where
  pending approved denied : ExtensionStatus

pub record TaskType : Type 0 where
  pub id : ℕ
  pub name : String
  pub default_priority : ℕ
  pub default_deadline_days : Option ℕ
  pub requires_acceptance : Bool
  pub requires_verification : Bool
  pub supports_co_executors : Bool
  pub supports_subtasks : Bool
  pub supports_draft : Bool
  pub active : Bool

pub record Task : Type 0 where
  pub id : ℕ
  pub type_id : ℕ
  pub title : String
  pub description : Option String
  pub status : TaskStatus
  pub priority : TaskPriority
  pub source : TaskSource
  pub classification : ℕ
  pub assigning_position_id : ℕ
  pub created_by_id : ℕ
  pub responsible_position_id : ℕ
  pub parent_task_id : Option ℕ
  pub depth : ℕ
  pub source_document_id : Option ℕ
  pub source_resolution_id : Option ℕ
  pub deadline : Option ℕ
  pub is_overdue : Bool
  pub overdue_at : Option ℕ
  pub progress_percent : ℕ
  pub progress_note : Option String
  pub completion_report : Option String
  pub completed_at : Option ℕ
  pub cancelled_at : Option ℕ
  pub cancel_reason : Option String
  pub hold_reason : Option String
  pub cannot_execute_reason : Option String

pub record TaskAssignment : Type 0 where
  pub id : ℕ
  pub task_id : ℕ
  pub position_id : ℕ
  pub assignment_type : AssignmentType
  pub status : AssignmentStatus
  pub assigned_by_position_id : ℕ
  pub assigned_by_user_id : ℕ
  pub deadline : Option ℕ
  pub accepted_at : Option ℕ
  pub removed_at : Option ℕ
  pub remove_reason : Option String

pub record DeadlineExtension : Type 0 where
  pub id : ℕ
  pub task_id : ℕ
  pub requester_position_id : ℕ
  pub requester_id : ℕ
  pub current_deadline : ℕ
  pub requested_deadline : ℕ
  pub justification : String
  pub status : ExtensionStatus
  pub reviewed_by_position_id : Option ℕ
  pub reviewed_by_id : Option ℕ
  pub review_remarks : Option String
  pub reviewed_at : Option ℕ

pub record TaskComment : Type 0 where
  pub id : ℕ
  pub task_id : ℕ
  pub author_id : ℕ
  pub author_position_id : ℕ
  pub body : String
  pub is_internal : Bool

pub record TaskAttachment : Type 0 where
  pub id : ℕ
  pub task_id : ℕ
  pub file_id : ℕ
  pub uploader_id : ℕ
  pub uploader_position_id : ℕ
  pub classification : ℕ
  pub removed_at : Option ℕ

pub data HistoryType : Type 0 where
  task_created task_updated status_changed all_subtasks_completed progress_updated : HistoryType
  executor_added executor_removed marked_overdue task_reassigned : HistoryType
  deadline_extension_requested deadline_extended : HistoryType

pub data NotificationType : Type 0 where
  task_all_subtasks_complete task_subtask_blocked task_reassigned_to task_reassigned_away :
      NotificationType
  extension_requested extension_approved extension_denied : NotificationType

-- What the service reports, in the order of the calls: history rows, audit events, emitted events
-- and events given to the outbox. The JSON snapshots that they carry are left out; an actor `none`
-- is the system.
pub data Report : Type 0 where
  history : (task_id : ℕ) → HistoryType → (actor_id actor_position_id : Option ℕ) → Report
  audit : String → (task_id : ℕ) → (actor_id : ℕ) → Report
  emitted : String → (task_id : ℕ) → Report
  changed : (task_id : ℕ) → (from to : TaskStatus) → (actor_id : ℕ) → Report
  overdue : (task_id responsible assigning : ℕ) → (deadline : Option ℕ) → Report
  notify : NotificationType → (recipient_position_id task_id : ℕ) → Report
  outbox_notify : NotificationType → (recipient_position_id task_id : ℕ) → Report
  outbox_channel : (task_id responsible assigning : ℕ) → Report

pub record TaskStore : Type 0 where
  pub types : List TaskType
  pub tasks : List Task
  pub assignments : List TaskAssignment
  pub extensions : List DeadlineExtension
  pub comments : List TaskComment
  pub attachments : List TaskAttachment
  pub reports : List Report
  pub next_id : ℕ  -- stands for the generated ids: each is given out once

-- The actor of a request: the user, the position that he acts from, and his clearance.
pub record Actor : Type 0 where
  pub id : ℕ
  pub position_id : ℕ
  pub clearance : ℕ

abbrev pub task_id : Task → ℕ
task_id t = t.id

abbrev pub task_of : ℕ → TaskStore → Option Task
task_of k s = find (λ t. t.id == k) s.tasks

abbrev pub type_of : ℕ → TaskStore → Option TaskType
type_of k s = find (λ t. t.id == k) s.types

abbrev pub report : List Report → Action TaskStore (Unit {0})
report rs = modify (λ s. record s { reports = s.reports ++ rs })

abbrev pub fresh_id : Action TaskStore ℕ
fresh_id s = (return s.next_id, record s { next_id = suc s.next_id })

abbrev pub is_active : AssignmentStatus → Bool
is_active active = true
is_active _ = false

abbrev pub is_primary : AssignmentType → Bool
is_primary primary = true
is_primary _ = false

abbrev pub is_open : ExtensionStatus → Bool
is_open pending = true
is_open _ = false
