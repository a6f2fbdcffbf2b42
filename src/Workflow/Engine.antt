-- ===== src/Workflow/Engine.antt =====
-- `activateStep` with `getNextStepDef`, and `advanceWorkflow`.
use coes_platform.Base.{
  ℕ, Bool, true, false, ◌&&◌, Option, none, some, List, [], ◌∷◌, ◌==◌, ltb, leb, or_else, is_some,
  if◌then◌else◌, find, count,
}
use coes_platform.Base.Action.{Action, return, query_failed, modify, skip, throw, ◌>>=◌, ◌>>◌}
use coes_platform.Org.{Position}
use coes_platform.Workflow.State.{
  active, StepDefinition, Document, Instance, Step, WorkflowStore, Actor, history, emitted, report,
  fresh_id, is_done,
}
use coes_platform.Workflow.Resolve.{resolve_target_position, vacancy_escalation, evaluate_condition}
use coes_platform.Workflow.Instances.{
  definitions_of, save_instance, complete_instance, deadline_of, skip_reports,
}

module _ (positions : List Position) (occupant : ℕ → Option ℕ) where
  -- `activateStep` once the position is known. A step for no position is refused by the column,
  -- which holds a UUID: with no escalation target the engine stops before it.
  abbrev pub place_step :
      (now : ℕ) → Instance → StepDefinition → Document → Option ℕ → Action WorkflowStore (Unit {0})
  place_step now i def d none =
      if is_some (vacancy_escalation positions occupant def.target_resolver.position_id)
      then throw query_failed
      else skip
  place_step now i def d (some position) = do
    new_id ← fresh_id
    let placed : Step = record {
      id = new_id;
      instance_id = i.id;
      step_order = def.step_order;
      step_name = def.step_name;
      step_type = def.step_type;
      status = active;
      position_id = position;
      assigned_user_id = occupant position;
      is_parallel = def.is_parallel;
      activated_at = some now;
      deadline = deadline_of now def.timeout_hours;
      overdue_at = none;
      secondary_escalation_fired = false;
      action_taken = none;
      actor_id = none;
      actor_position_id = none;
      delegation_id = none;
      remarks = none;
      completed_at = none;
    }
    modify (λ s. record s { steps = placed ∷ s.steps })
    save_instance (record i { current_step_order = some def.step_order })
    report (
        history "step_activated" d.id i.id (some new_id) none
        ∷ emitted "workflow.step_activated" d.id
        ∷ [])

  -- The part of `activateStep` for a step whose condition is met.
  unfoldable pub open_step :
      (now : ℕ) → Instance → StepDefinition → Document → Action WorkflowStore (Unit {0})
  open_step now i def d = do
    position ← resolve_target_position positions occupant def.target_resolver d
    place_step now i def d position

  -- `activateStep` of the first step above the order: `getNextStepDef`, and the steps that are
  -- skipped, down the sorted definitions of the template.
  unfoldable pub activate_next :
      (now : ℕ)
      → Instance
      → Document
      → (order : ℕ) → (actor : Option ℕ) → List StepDefinition
      → Action WorkflowStore (Unit {0})
  activate_next now i d order actor [] s = complete_instance now i d.id actor s
  activate_next now i d order actor (def ∷ defs) s = elim (leb def.step_order order) [
    | true ↦ activate_next now i d order actor defs s
    | false ↦ elim (evaluate_condition def d) [
      | true ↦ open_step now i def d s
      | false ↦ activate_next now i d def.step_order none defs (skip_reports i d s).1
    ]
  ]

  unfoldable pub activate_step :
      (now : ℕ) → Instance → StepDefinition → Document → Action WorkflowStore (Unit {0})
  activate_step now i def d s = elim (evaluate_condition def d) [
    | true ↦ open_step now i def d s
    | false ↦
        activate_next now i d def.step_order none (definitions_of i.template_id s)
          (skip_reports i d s).1
  ]

  -- `isParallel` and too few of the sibling steps are done.
  abbrev pub siblings : Instance → Step → Step → Bool
  siblings i t x = x.instance_id == i.id && x.step_order == t.step_order

  abbrev pub threshold_of : Option StepDefinition → (total : ℕ) → ℕ
  threshold_of none total = total
  threshold_of (some def) total = or_else def.parallel_threshold total

  abbrev pub must_wait : Instance → Step → WorkflowStore → Bool
  must_wait i t s =
      t.is_parallel
      && ltb (count (λ x. siblings i t x && is_done x.status) s.steps) (
          threshold_of
            (find (λ def. def.step_order == t.step_order) (definitions_of i.template_id s))
            (count (siblings i t) s.steps))

  unfoldable pub advance_workflow :
      (now : ℕ) → Instance → Step → Document → Actor → Action WorkflowStore (Unit {0})
  advance_workflow now i t d actor s = elim (must_wait i t s) [
    | true ↦ (return tt, s)
    | false ↦ activate_next now i d t.step_order (some actor.id) (definitions_of i.template_id s) s
  ]
