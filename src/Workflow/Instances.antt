-- ===== src/Workflow/Instances.antt =====
-- `completeInstance`, `rejectInstance`, `returnForRevision`, and the order of the definitions.
use coes_platform.Base.{
  ℕ, zero, suc, ◌+◌, ◌*◌, String, ◌&&◌, Option, none, some, List, [], ◌∷◌, map, ◌==◌, leb,
  if◌then◌else◌, select, save_row,
}
use coes_platform.Base.Action.{Action, modify, ◌>>◌}
use coes_platform.Workflow.State.{
  DocumentStatus, in_workflow, suspended, finished, rejected, pending, StepDefinition, Document,
  Instance, Step, WorkflowStore, Actor, history, emitted, step_id, instance_id, report, is_active,
}

-- `sort((a, b) => a.stepOrder - b.stepOrder)`, stable; also the `ORDER BY` of `getNextStepDef`.
abbrev pub insert_by_order : StepDefinition → List StepDefinition → List StepDefinition
insert_by_order d [] = d ∷ []
insert_by_order d (x ∷ xs) =
    let rest = insert_by_order d xs in
    if leb d.step_order x.step_order then d ∷ x ∷ xs else x ∷ rest

abbrev pub by_order : List StepDefinition → List StepDefinition
by_order [] = []
by_order (d ∷ ds) = insert_by_order d (by_order ds)

abbrev pub definitions_of : ℕ → WorkflowStore → List StepDefinition
definitions_of template s = by_order (select (λ d. d.template_id == template) s.definitions)

abbrev pub save_step : Step → Action WorkflowStore (Unit {0})
save_step t = modify (λ s. record s { steps = save_row step_id t s.steps })

abbrev pub save_instance : Instance → Action WorkflowStore (Unit {0})
save_instance i = modify (λ s. record s { instances = save_row instance_id i s.instances })

-- `documentRepo.update(documentId, { status })`.
abbrev pub set_document_status : ℕ → DocumentStatus → Action WorkflowStore (Unit {0})
set_document_status k status = modify (λ s. record s {
  documents =
      map (λ (d : Document). if d.id == k then record d { status = status } else d) s.documents;
})

abbrev pub completed_instance : (now : ℕ) → Instance → Instance
completed_instance now i = record i {
  status = finished;
  current_step_order = none;
  completed_at = some now;
}

unfoldable pub complete_instance :
    (now : ℕ) → Instance → (document_id : ℕ) → (actor : Option ℕ) → Action WorkflowStore (Unit {0})
complete_instance now i document_id actor = do
  save_instance (completed_instance now i)
  set_document_status document_id in_workflow
  report (
      history "workflow_completed" document_id i.id none actor
      ∷ emitted "workflow.completed" document_id
      ∷ [])

abbrev pub rejected_instance : (now : ℕ) → String → Instance → Instance
rejected_instance now reason i = record i {
  status = rejected;
  rejected_at = some now;
  rejection_reason = some reason;
}

unfoldable pub reject_instance :
    (now : ℕ)
    → Instance
    → (document_id : ℕ) → (reason : String) → Actor
    → Action WorkflowStore (Unit {0})
reject_instance now i document_id reason actor = do
  save_instance (rejected_instance now reason i)
  set_document_status document_id DocumentStatus.cancelled
  report (
      history "workflow_rejected" document_id i.id none (some actor.id)
      ∷ emitted "workflow.rejected" document_id
      ∷ [])

-- The other active steps of the instance go back to pending.
abbrev pub suspend_step : ℕ → Step → Step
suspend_step k t =
    if t.instance_id == k && is_active t.status then record t { status = pending } else t

unfoldable pub return_for_revision :
    Instance → Step → Document → Actor → Action WorkflowStore (Unit {0})
return_for_revision i t d actor = do
  modify (λ s. record s { steps = map (suspend_step i.id) s.steps })
  save_instance (record i { status = suspended })
  report (
      history "workflow_suspended_for_revision" d.id i.id (some t.id) (some actor.id)
      ∷ emitted "workflow.returned_for_revision" d.id
      ∷ [])

abbrev pub deadline_of : (now : ℕ) → Option ℕ → Option ℕ
deadline_of now none = none
deadline_of now (some zero) = none
deadline_of now (some (suc hours)) = some (now + suc hours * 3_600_000)

abbrev pub skip_reports : Instance → Document → Action WorkflowStore (Unit {0})
skip_reports i d = report (history "step_skipped" d.id i.id none none ∷ [])
