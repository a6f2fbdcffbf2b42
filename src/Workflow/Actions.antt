-- ===== src/Workflow/Actions.antt =====
-- `startWorkflow`, `actOnStep`, `resumeWorkflow` and `markOverdueSteps`.
use coes_platform.Base.{
  ℕ, String, Bool, false, not, ◌&&◌, Option, none, some, List, [], ◌∷◌, ◌==◌, ltb, or_else, is_some,
  find, select, length, greatest_by,
}
use coes_platform.Base.Action.{
  Action, not_found, bad_request, forbidden, get, modify, pure, skip, require, throw_if, for_each,
  ◌>>=◌, ◌>>◌,
}
use coes_platform.Org.{Position, is_subordinate_to}
use coes_platform.Workflow.State.{
  running, StepStatus, overdue, done, returned, StepAction, act_rejected, act_returned,
  act_escalated, StepDefinition, Template, Document, Instance, Step, WorkflowStore, Actor, history,
  audit, emitted, document_of, instance_of, report, fresh_id, is_active, is_returned, is_running,
  is_suspended,
}
use coes_platform.Workflow.Resolve.{is_compatible}
use coes_platform.Workflow.Instances.{
  definitions_of, save_step, save_instance, complete_instance, reject_instance, return_for_revision,
}
use coes_platform.Workflow.Engine.{activate_step, advance_workflow}

pub record ActOnStepDto : Type 0 where
  pub action : StepAction
  pub remarks : Option String
  pub delegation_id : Option ℕ

-- The step that a definition returns to.
abbrev pub target_in : Option StepDefinition → ℕ
target_in none = 1
target_in (some def) = or_else def.return_to_step 1

-- What `markOverdueSteps` looks for: the active steps past their deadline.
abbrev pub is_past : (now : ℕ) → Option ℕ → Bool
is_past now none = false
is_past now (some deadline) = ltb deadline now

abbrev pub is_late : (now : ℕ) → Step → Bool
is_late now t = is_active t.status && (is_past now t.deadline && not (is_some t.overdue_at))

abbrev pub flag_overdue : (now : ℕ) → Step → Step
flag_overdue now t = record t { status = overdue; overdue_at = some now }

abbrev pub report_overdue : Step → Option Instance → Action WorkflowStore (Unit {0})
report_overdue t none = skip
report_overdue t (some i) = report (
    history "step_overdue" i.document_id i.id (some t.id) none
    ∷ emitted "workflow.step_overdue" i.document_id
    ∷ [])

abbrev pub overdue_round : (now : ℕ) → Step → Action WorkflowStore (Unit {0})
overdue_round now t = do
  save_step (flag_overdue now t)
  s ← get
  report_overdue t (instance_of t.instance_id s)

unfoldable pub mark_overdue_steps : (now : ℕ) → Action WorkflowStore ℕ
mark_overdue_steps now = do
  s ← get
  for_each (overdue_round now) (select (is_late now) s.steps)
  pure (length (select (is_late now) s.steps))

module _ (positions : List Position) (occupant : ℕ → Option ℕ) where
  -- The three sets of actions; an escalation is in none.
  abbrev pub follow_up :
      (now : ℕ)
      → Instance
      → Step
      → Document
      → ActOnStepDto
      → Actor
      → StepAction
      → Action WorkflowStore (Unit {0})
  follow_up now i t d dto actor act_rejected =
      reject_instance now i d.id (or_else dto.remarks "Rejected") actor
  follow_up now i t d dto actor act_returned = return_for_revision i t d actor
  follow_up now i t d dto actor act_escalated = skip
  follow_up now i t d dto actor _ = advance_workflow positions occupant now i t d actor

  abbrev pub status_after : StepAction → StepStatus
  status_after act_returned = returned
  status_after _ = done

  abbrev pub acted : (now : ℕ) → ActOnStepDto → Actor → Step → Step
  acted now dto actor t = record t {
    status = status_after dto.action;
    action_taken = some dto.action;
    actor_id = some actor.id;
    actor_position_id = some actor.position_id;
    delegation_id = dto.delegation_id;
    remarks = dto.remarks;
    completed_at = some now;
  }

  -- The checks of `actOnStep`.
  unfoldable pub admit_action :
      (document_id step : ℕ)
      → ActOnStepDto
      → Actor
      → Action WorkflowStore (Document × Step × Instance)
  admit_action document_id step dto actor = do
    s ← get
    d ← require (document_of document_id s) not_found
    throw_if (ltb actor.clearance d.classification) forbidden
    t ← require (find (λ t. t.id == step && is_active t.status) s.steps) not_found
    throw_if
        (not (t.position_id == actor.position_id)
          && not (is_some dto.delegation_id)
          && not (is_subordinate_to positions t.position_id actor.position_id))
        forbidden
    i ← require (instance_of t.instance_id s) bad_request
    throw_if (not (is_running i.status)) bad_request
    throw_if (not (is_compatible t.step_type dto.action)) bad_request
    pure (d, t, i)

  -- What follows the checks.
  unfoldable pub settle_action :
      (now document_id : ℕ)
      → ActOnStepDto
      → Actor
      → Document
      → Step
      → Instance
      → Action WorkflowStore (Unit {0})
  settle_action now document_id dto actor d t i = do
    let settled = acted now dto actor t
    save_step settled
    report (
        history "step_completed" document_id i.id (some t.id) (some actor.id)
        ∷ audit "WORKFLOW_STEP_COMPLETED" document_id actor.id
        ∷ [])
    follow_up now i settled d dto actor dto.action
    report (emitted "workflow.step_completed" document_id ∷ [])

  unfoldable pub act_on_step :
      (now document_id step : ℕ) → ActOnStepDto → Actor → Action WorkflowStore (Unit {0})
  act_on_step now document_id step dto actor = do
    (d, t, i) ← admit_action document_id step dto actor
    settle_action now document_id dto actor d t i

  -- The first step, or the end where the template has none.
  abbrev pub enter_first :
      (now : ℕ)
      → Instance
      → Document
      → (actor : ℕ) → List StepDefinition
      → Action WorkflowStore (Unit {0})
  enter_first now i d actor [] = complete_instance now i d.id (some actor)
  enter_first now i d actor (def ∷ defs) = activate_step positions occupant now i def d

  -- No active template: the document does not enter a workflow.
  abbrev pub start_with :
      (now : ℕ)
      → Document
      → (actor : ℕ) → (actor_position : Option ℕ) → Option Template
      → Action WorkflowStore (Option ℕ)
  start_with now d actor actor_position none = pure none
  start_with now d actor actor_position (some template) = do
    s ← get
    throw_if (is_some (find (λ i. i.document_id == d.id && is_running i.status) s.instances))
        bad_request
    new_id ← fresh_id
    let started : Instance = record {
      id = new_id;
      document_id = d.id;
      template_id = template.id;
      template_version = template.version;
      status = running;
      current_step_order = none;
      initiated_by_id = actor;
      initiated_by_position_id = actor_position;
      deadline = none;
      completed_at = none;
      rejected_at = none;
      rejection_reason = none;
    }
    modify (λ t. record t { instances = started ∷ t.instances })
    report (history "workflow_started" d.id new_id none (some actor) ∷ [])
    enter_first now started d actor (definitions_of template.id s)
    pure (some new_id)

  unfoldable pub start_workflow :
      (now document_id actor : ℕ) → (actor_position : Option ℕ) → Action WorkflowStore (Option ℕ)
  start_workflow now document_id actor actor_position = do
    s ← get
    d ← require (document_of document_id s) not_found
    start_with now d actor actor_position
        (find (λ t. t.document_type_id == d.type_id && t.active) s.templates)

  -- `stepDef?.returnToStep ?? 1` of the returned step with the highest order.
  abbrev pub return_target : List StepDefinition → Option Step → ℕ
  return_target defs none = 1
  return_target defs (some t) = target_in (find (λ def. def.step_order == t.step_order) defs)

  abbrev pub enter_found :
      (now : ℕ) → Instance → Document → Option StepDefinition → Action WorkflowStore (Unit {0})
  enter_found now i d none = skip
  enter_found now i d (some def) = activate_step positions occupant now i def d

  unfoldable pub resume_workflow : (now document_id : ℕ) → Actor → Action WorkflowStore (Unit {0})
  resume_workflow now document_id actor = do
    s ← get
    i ←
        require (find (λ i. i.document_id == document_id && is_suspended i.status) s.instances)
          not_found
    d ← require (document_of document_id s) not_found
    throw_if (ltb actor.clearance d.classification) forbidden
    throw_if (not (d.created_by_id == actor.id)) forbidden
    let defs = definitions_of i.template_id s
    let target = return_target defs (
        greatest_by (λ t. t.step_order)
          (select (λ t. t.instance_id == i.id && is_returned t.status) s.steps))
    let resumed : Instance = record i { status = running }
    save_instance resumed
    enter_found now resumed d (find (λ def. def.step_order == target) defs)
    report (history "workflow_resumed" document_id i.id none (some actor.id) ∷ [])
