-- ===== src/Workflow/Samples.antt =====
-- A small workflow, and what the engine does on it.
use coes_platform.Base.{ℕ, true, false, Option, none, some, List, [], ◌∷◌, ◌≡◌, refl, map}
use coes_platform.Base.Action.{return, raise, forbidden}
use coes_platform.Org.{command_chain, get_command_chain, is_subordinate_to}
use coes_platform.Org.Samples.{officers}
use coes_platform.Workflow.State.{
  in_workflow, running, StepStatus, active, done, StepType, approval, review, signing, act_approved,
  act_rejected, fixed_position, StepCondition, StepDefinition, Document, Instance, Step,
  WorkflowStore, Actor,
}
use coes_platform.Workflow.Resolve.{resolve_target_position, evaluate_condition}
use coes_platform.Workflow.Instances.{complete_instance, reject_instance, return_for_revision}
use coes_platform.Workflow.Engine.{open_step, activate_next, activate_step, advance_workflow}
use coes_platform.Workflow.Actions.{
  ActOnStepDto, admit_action, settle_action, act_on_step, start_workflow, resume_workflow,
  mark_overdue_steps,
}

abbrev pub occupant : ℕ → Option ℕ
occupant k = some k

abbrev pub definition : ℕ → StepType → (position_id : ℕ) → Option StepCondition → StepDefinition
definition order type position condition = record {
  id = order;
  template_id = 1;
  step_order = order;
  step_name = "step";
  step_type = type;
  target_resolver = record {
    type = fixed_position;
    position_id = some position;
    department_id = 1;
    level = none;
    role = none;
  };
  is_parallel = false;
  parallel_threshold = none;
  timeout_hours = none;
  secondary_escalation_hours = none;
  return_to_step = none;
  is_optional = false;
  condition = condition;
}

-- The review is for documents of class 3.
abbrev pub definitions : List StepDefinition
definitions =
    definition 1 approval 2 none
    ∷ definition 2 review 4 (some (record { gte = some 3; lte = none }))
    ∷ definition 3 signing 1 none
    ∷ []

abbrev pub decree : Document
decree = record {
  id = 6;
  type_id = 1;
  status = in_workflow;
  classification = 1;
  recipients = [];
  created_by_id = 3;
  created_by_position_id = some 3;
}

abbrev pub circulation : Instance
circulation = record {
  id = 5;
  document_id = 6;
  template_id = 1;
  template_version = 1;
  status = running;
  current_step_order = some 1;
  initiated_by_id = 3;
  initiated_by_position_id = some 3;
  deadline = none;
  completed_at = none;
  rejected_at = none;
  rejection_reason = none;
}

abbrev pub first_step : Step
first_step = record {
  id = 8;
  instance_id = 5;
  step_order = 1;
  step_name = "step";
  step_type = approval;
  status = active;
  position_id = 2;
  assigned_user_id = some 2;
  is_parallel = false;
  activated_at = some 10;
  deadline = some 50;
  overdue_at = none;
  secondary_escalation_fired = false;
  action_taken = none;
  actor_id = none;
  actor_position_id = none;
  delegation_id = none;
  remarks = none;
  completed_at = none;
}

abbrev pub office : WorkflowStore
office = record {
  documents = decree ∷ [];
  templates =
      record {
        id = 1;
        name = "circulation";
        description = none;
        document_type_id = 1;
        version = 1;
        active = true;
      }
      ∷ [];
  definitions = definitions;
  instances = circulation ∷ [];
  steps = first_step ∷ [];
  reports = [];
  next_id = 20;
}

abbrev pub actor : (position_id : ℕ) → Actor
actor k = record { id = k; position_id = k; clearance = 1 }

abbrev pub approve : ActOnStepDto
approve = record { action = act_approved; remarks = none; delegation_id = none }

abbrev pub reject : ActOnStepDto
reject = record { action = act_rejected; remarks = none; delegation_id = none }

-- The same by an actor who names a delegation.
abbrev pub delegated : ActOnStepDto
delegated = record { action = act_approved; remarks = none; delegation_id = some 99 }

unfoldable pub program : Unit {0}
unfolding command_chain get_command_chain is_subordinate_to resolve_target_position
    evaluate_condition complete_instance reject_instance return_for_revision open_step activate_next
    activate_step advance_workflow admit_action settle_action act_on_step start_workflow
    resume_workflow mark_overdue_steps
program = tt

-- The review is skipped: the next step is the signing, by position 1.
approved :
    map {B = ℕ × ℕ × StepStatus}
      (λ (t : Step). (t.step_order, t.position_id, t.status))
      (act_on_step officers occupant 30 6 8 approve (actor 2) office).1.steps
    ≡ (3, 1, active) ∷ (1, 2, done) ∷ []
unfolding program
approved = refl

-- Position 4 is not the designated one, nor above it.
not_designated :
    act_on_step officers occupant 30 6 8 approve (actor 4) office ≡ (raise forbidden, office)
unfolding program
not_designated = refl

-- With any delegation id it may act all the same.
delegation_unchecked :
    (act_on_step officers occupant 30 6 8 delegated (actor 4) office).0 ≡ return tt
unfolding program
delegation_unchecked = refl
