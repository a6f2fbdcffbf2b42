-- ===== src/Workflow/State.antt =====
-- The entities of a workflow and the tables of the engine. A table lists the newest row first, times
-- are milliseconds.
use coes_platform.Base.{ℕ, suc, String, Bool, true, false, Option, List, ◌++◌, ◌==◌, find}
use coes_platform.Base.Action.{Action, return, modify}
use coes_platform.Org.{PositionLevel}

pub data DocumentStatus : Type 0 where
  draft registered in_workflow completed archived cancelled : DocumentStatus

pub data InstanceStatus : Type 0 where
  running suspended finished rejected withdrawn : InstanceStatus

pub data StepStatus : Type 0 where
  pending active overdue done returned skipped : StepStatus

pub data StepType : Type 0 where
  review endorsement approval signing resolution distribution execution acknowledgement : StepType

pub data StepAction : Type 0 where
  act_reviewed act_endorsed act_endorsed_conditionally act_approved act_rejected act_signed :
      StepAction
  act_resolution_issued act_distributed act_acknowledged act_returned act_escalated : StepAction

-- The JSON of a target resolver: its type, and the fields that some type reads.
pub data ResolverType : Type 0 where
  fixed_position document_author_supervisor department_head organization_leadership : ResolverType
  recipient_head role_in_department unknown_type : ResolverType

pub record TargetResolver : Type 0 where
  pub type : ResolverType
  pub position_id : Option ℕ
  pub department_id : ℕ
  pub level : Option PositionLevel
  pub role : Option PositionLevel

-- The bounds of a condition on the classification.
pub record StepCondition : Type 0 where
  pub gte : Option ℕ
  pub lte : Option ℕ

pub record StepDefinition : Type 0 where
  pub id : ℕ
  pub template_id : ℕ
  pub step_order : ℕ
  pub step_name : String
  pub step_type : StepType
  pub target_resolver : TargetResolver
  pub is_parallel : Bool
  pub parallel_threshold : Option ℕ
  pub timeout_hours : Option ℕ
  pub secondary_escalation_hours : Option ℕ
  pub return_to_step : Option ℕ
  pub condition : Option StepCondition
  pub is_optional : Bool

pub record Template : Type 0 where
  pub id : ℕ
  pub name : String
  pub description : Option String
  pub document_type_id : ℕ
  pub version : ℕ
  pub active : Bool

-- The columns of a document that the engine reads or writes. A recipient is its position, if any.
pub record Document : Type 0 where
  pub id : ℕ
  pub type_id : ℕ
  pub status : DocumentStatus
  pub classification : ℕ
  pub recipients : List (Option ℕ)
  pub created_by_id : ℕ
  pub created_by_position_id : Option ℕ

pub record Instance : Type 0 where
  pub id : ℕ
  pub document_id : ℕ
  pub template_id : ℕ
  pub template_version : ℕ
  pub status : InstanceStatus
  pub current_step_order : Option ℕ
  pub initiated_by_id : ℕ
  pub initiated_by_position_id : Option ℕ
  pub deadline : Option ℕ
  pub completed_at : Option ℕ
  pub rejected_at : Option ℕ
  pub rejection_reason : Option String

pub record Step : Type 0 where
  pub id : ℕ
  pub instance_id : ℕ
  pub step_order : ℕ
  pub step_name : String
  pub step_type : StepType
  pub status : StepStatus
  pub position_id : ℕ
  pub assigned_user_id : Option ℕ
  pub is_parallel : Bool
  pub activated_at : Option ℕ
  pub deadline : Option ℕ
  pub overdue_at : Option ℕ
  pub secondary_escalation_fired : Bool
  pub action_taken : Option StepAction
  pub actor_id : Option ℕ
  pub actor_position_id : Option ℕ
  pub delegation_id : Option ℕ
  pub remarks : Option String
  pub completed_at : Option ℕ

-- History rows, audit events and emitted events, in the order of the calls. An actor `none` is the
-- system.
pub data WorkflowReport : Type 0 where
  history : String → (document_id instance_id : ℕ) → (step_id actor_id : Option ℕ) → WorkflowReport
  audit : String → (document_id : ℕ) → (actor_id : ℕ) → WorkflowReport
  emitted : String → (document_id : ℕ) → WorkflowReport

pub record WorkflowStore : Type 0 where
  pub documents : List Document
  pub templates : List Template
  pub definitions : List StepDefinition
  pub instances : List Instance
  pub steps : List Step
  pub reports : List WorkflowReport
  pub next_id : ℕ

pub record Actor : Type 0 where
  pub id : ℕ
  pub position_id : ℕ
  pub clearance : ℕ

abbrev pub step_id : Step → ℕ
step_id t = t.id

abbrev pub instance_id : Instance → ℕ
instance_id i = i.id

abbrev pub document_of : ℕ → WorkflowStore → Option Document
document_of k s = find (λ d. d.id == k) s.documents

abbrev pub instance_of : ℕ → WorkflowStore → Option Instance
instance_of k s = find (λ i. i.id == k) s.instances

abbrev pub report : List WorkflowReport → Action WorkflowStore (Unit {0})
report rs = modify (λ s. record s { reports = s.reports ++ rs })

abbrev pub fresh_id : Action WorkflowStore ℕ
fresh_id s = (return s.next_id, record s { next_id = suc s.next_id })

abbrev pub is_active : StepStatus → Bool
is_active active = true
is_active _ = false

abbrev pub is_done : StepStatus → Bool
is_done done = true
is_done _ = false

abbrev pub is_returned : StepStatus → Bool
is_returned returned = true
is_returned _ = false

abbrev pub is_running : InstanceStatus → Bool
is_running running = true
is_running _ = false

abbrev pub is_suspended : InstanceStatus → Bool
is_suspended suspended = true
is_suspended _ = false
