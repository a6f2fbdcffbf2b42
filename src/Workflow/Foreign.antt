-- ===== src/Workflow/Foreign.antt =====
-- `actOnStep` on a step of a workflow, and the documents that the request does not name.
use coes_platform.Base.{
  ℕ, false, Option, none, some, List, [], ◌∷◌, ◌≡◌, ◌∙◌, sym, subst, refl, ◌==◌, leb, find,
  find-passes, map, if◌then◌else◌, Bool-cases, Option-cases, inl, inr, arith,
}
use coes_platform.Base.Action.{Result, return, raise, and_then, Checks}
use coes_platform.Org.{Position}
use coes_platform.Workflow.State.{
  DocumentStatus, Document, Instance, Step, StepAction, StepDefinition, WorkflowStore,
  WorkflowReport, Actor, act_rejected, act_returned, act_escalated, document_of, report,
}
use coes_platform.Workflow.Resolve.{evaluate_condition, resolve_target_position}
use coes_platform.Workflow.Instances.{
  definitions_of, complete_instance, reject_instance, return_for_revision, skip_reports,
}
use coes_platform.Workflow.Engine.{
  place_step, open_step, activate_next, advance_workflow, must_wait,
}
use coes_platform.Workflow.Actions.{
  ActOnStepDto, follow_up, acted, admit_action, settle_action, act_on_step,
}
use coes_platform.Workflow.Valid.{resolve-store}

set_status-other :
    (k other : ℕ) (status : DocumentStatus) (xs : List Document)
    → (k == other) ≡ false
    → find
        (λ x. x.id == other)
        (map (λ (x : Document). if x.id == k then record x { status = status } else x) xs)
      ≡ find (λ x. x.id == other) xs
set_status-other k other status [] apart = refl
set_status-other k other status (x ∷ xs) apart =
    let rest = set_status-other k other status xs apart in
    elim (Bool-cases (x.id == k)) [ inl own ↦ ground arith | inr away ↦ ground arith ]

-- The document with the id is as it was.
abbrev Keeps : ℕ → Option Document → WorkflowStore → Type 0
Keeps other found s = document_of other s ≡ found

module _ (other : ℕ) (found : Option Document) where
  complete_instance-Keeps :
      (now : ℕ) (i : Instance) (k : ℕ) (actor : Option ℕ) (s : WorkflowStore)
      → (k == other) ≡ false
      → Keeps other found s
      → Keeps other found (complete_instance now i k actor s).1
  unfolding complete_instance
  complete_instance-Keeps now i k actor s apart h = set_status-other k other _ s.documents apart ∙ h

  module _ (positions : List Position) (occupant : ℕ → Option ℕ) where
    place_step-Keeps :
        (now : ℕ) (i : Instance) (def : StepDefinition) (d : Document) (position : Option ℕ)
        (s : WorkflowStore)
        → Keeps other found s
        → Keeps other found (place_step positions occupant now i def d position s).1
    place_step-Keeps now i def d none s h = ground arith
    place_step-Keeps now i def d (some k) s h = h

    opened-Keeps :
        (now : ℕ) (i : Instance) (def : StepDefinition) (d : Document)
        (o : Result (Option ℕ) × WorkflowStore)
        → Keeps other found o.1
        → Keeps other found (and_then o (place_step positions occupant now i def d)).1
    opened-Keeps now i def d (return position, s) h = place_step-Keeps now i def d position s h
    opened-Keeps now i def d (raise e, s) h = h

    open_step-Keeps :
        (now : ℕ) (i : Instance) (def : StepDefinition) (d : Document) (s : WorkflowStore)
        → Keeps other found s
        → Keeps other found (open_step positions occupant now i def d s).1
    unfolding open_step
    open_step-Keeps now i def d s h =
        opened-Keeps now i def d
          (resolve_target_position positions occupant def.target_resolver d s)
          (subst (Keeps other found)
            (sym (resolve-store positions occupant def.target_resolver d s)) h)

    activate_next-Keeps :
        (now : ℕ) (i : Instance) (d : Document) (order : ℕ) (actor : Option ℕ)
        (defs : List StepDefinition) (s : WorkflowStore)
        → (d.id == other) ≡ false
        → Keeps other found s
        → Keeps other found (activate_next positions occupant now i d order actor defs s).1
    unfolding activate_next
    activate_next-Keeps now i d order actor [] s apart h =
        complete_instance-Keeps now i d.id actor s apart h
    activate_next-Keeps now i d order actor (x ∷ xs) s apart h =
        elim (Bool-cases (leb x.step_order order)) [
          | inl passed ↦
              rw (passed, activate_next) (activate_next-Keeps now i d order actor xs s apart h)
          | inr ahead ↦ elim (Bool-cases (evaluate_condition x d)) [
            | inl met ↦ rw (ahead, activate_next) (rw met (open_step-Keeps now i x d s h))
            | inr unmet ↦
                rw (ahead, activate_next)
                  (rw unmet (
                    activate_next-Keeps now i d x.step_order none xs (skip_reports i d s).1 apart
                      h))
          ]
        ]

    advance_workflow-Keeps :
        (now : ℕ) (i : Instance) (t : Step) (d : Document) (actor : Actor) (s : WorkflowStore)
        → (d.id == other) ≡ false
        → Keeps other found s
        → Keeps other found (advance_workflow positions occupant now i t d actor s).1
    unfolding advance_workflow
    advance_workflow-Keeps now i t d actor s apart h =
        elim (Bool-cases (must_wait positions occupant i t s)) [
          | inl waits ↦ rw (waits, advance_workflow) h
          | inr goes ↦
              rw (goes, advance_workflow)
                (activate_next-Keeps now i d t.step_order (some actor.id)
                  (definitions_of i.template_id s) s apart h)
        ]

    follow_up-Keeps :
        (now : ℕ) (i : Instance) (t : Step) (d : Document) (dto : ActOnStepDto) (actor : Actor)
        (action : StepAction) (s : WorkflowStore)
        → (d.id == other) ≡ false
        → Keeps other found s
        → Keeps other found (follow_up positions occupant now i t d dto actor action s).1
    unfolding reject_instance return_for_revision
    follow_up-Keeps now i t d dto actor act_rejected s apart h =
        set_status-other d.id other _ s.documents apart ∙ h
    follow_up-Keeps now i t d dto actor act_returned s apart h = h
    follow_up-Keeps now i t d dto actor act_escalated s apart h = h
    follow_up-Keeps now i t d dto actor _ s apart h =
        advance_workflow-Keeps now i t d actor s apart h

    reported-Keeps :
        (o : Result (Unit {0}) × WorkflowStore) (rs : List WorkflowReport)
        → Keeps other found o.1
        → Keeps other found (and_then o (λ _. report rs)).1
    reported-Keeps (return u, s) rs h = h
    reported-Keeps (raise e, s) rs h = h

    -- The document that the checks return is the one that the request names.
    admit_action-document :
        (document_id step : ℕ) (dto : ActOnStepDto) (actor : Actor) (s : WorkflowStore)
        → Checks
            (λ (p : Document × Step × Instance). p.0.id ≡ document_id)
            s
            (admit_action positions occupant document_id step dto actor s)
    unfolding admit_action
    admit_action-document document_id step dto actor s =
        elim (Option-cases (document_of document_id s)) [
          | inl missing ↦ rw missing (refl, tt)
          | inr (d, row) ↦
              let own = find-passes (λ x. x.id == document_id) s.documents row in ground arith
        ]

    settled-Keeps :
        (now document_id : ℕ) (dto : ActOnStepDto) (actor : Actor) (s : WorkflowStore)
        (o : Result (Document × Step × Instance) × WorkflowStore)
        → Checks (λ (p : Document × Step × Instance). p.0.id ≡ document_id) s o
        → (document_id == other) ≡ false
        → Keeps other found s
        → Keeps other found
            (and_then o
              (λ (d, t, i). settle_action positions occupant now document_id dto actor d t i)).1
    unfolding settle_action
    settled-Keeps now document_id dto actor s (return (d, t, i), u) (same, own) apart h =
        let done = acted positions occupant now dto actor t in
        reported-Keeps (follow_up positions occupant now i done d dto actor dto.action _) _ (
          follow_up-Keeps now i done d dto actor dto.action _ (rw own apart)
            (subst (Keeps other found) (sym same) h))
    settled-Keeps now document_id dto actor s (raise e, u) (same, _) apart h =
        subst (Keeps other found) (sym same) h

-- Whatever is done on a step, and whatever document its workflow belongs to, no other document than
-- the one that the request names changes: where the workflow is that of another document, this
-- document keeps its status although its workflow is settled or goes on.
pub act_on_step-other_document :
    (positions : List Position) (occupant : ℕ → Option ℕ) (now document_id step : ℕ)
    (dto : ActOnStepDto) (actor : Actor) (other : ℕ) (s : WorkflowStore)
    → (document_id == other) ≡ false
    → document_of other (act_on_step positions occupant now document_id step dto actor s).1
      ≡ document_of other s
unfolding act_on_step
act_on_step-other_document positions occupant now document_id step dto actor other s apart =
    settled-Keeps other (document_of other s) positions occupant now document_id dto actor s
      (admit_action positions occupant document_id step dto actor s)
      (admit_action-document other (document_of other s) positions occupant document_id step dto
        actor s)
      apart refl
