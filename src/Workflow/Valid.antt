-- ===== src/Workflow/Valid.antt =====
-- The well-formedness of instances and steps, kept by the engine.
use coes_platform.Base.{
  ℕ, String, Bool, true, false, Option, none, some, List, [], ◌∷◌, map, ◌≡◌, sym, subst, is_some,
  leb, All, All-save_row, Bool-cases, inl, inr, arith,
}
use coes_platform.Base.Action.{Result, return, raise, and_then, Checks}
use coes_platform.Org.{Position}
use coes_platform.Workflow.State.{
  suspended, finished, rejected, StepStatus, overdue, done, returned, StepAction, act_rejected,
  act_returned, act_escalated, StepDefinition, Document, Instance, Step, WorkflowStore, Actor,
  TargetResolver, step_id, instance_id, report, WorkflowReport, is_running,
}
use coes_platform.Workflow.Resolve.{resolve_target_position, evaluate_condition}
use coes_platform.Workflow.Instances.{
  complete_instance, completed_instance, reject_instance, rejected_instance, return_for_revision,
  suspend_step, definitions_of, skip_reports,
}
use coes_platform.Workflow.Engine.{
  place_step, open_step, activate_next, advance_workflow, must_wait,
}
use coes_platform.Workflow.Actions.{
  ActOnStepDto, acted, follow_up, admit_action, settle_action, act_on_step,
}

abbrev pub is_settled : StepStatus → Bool
is_settled done = true
is_settled returned = true
is_settled _ = false

pub record IsSound (i : Instance) : Type 0 where
  pub ended : i.status ≡ finished → is_some i.completed_at ≡ true
  pub no_step : i.status ≡ finished → is_some i.current_step_order ≡ false
  pub refused : i.status ≡ rejected → is_some i.rejected_at ≡ true
  pub why : i.status ≡ rejected → is_some i.rejection_reason ≡ true

pub record IsAccounted (t : Step) : Type 0 where
  pub action : is_settled t.status ≡ true → is_some t.action_taken ≡ true
  pub actor : is_settled t.status ≡ true → is_some t.actor_id ≡ true
  pub when_done : is_settled t.status ≡ true → is_some t.completed_at ≡ true
  pub late_since : t.status ≡ overdue → is_some t.overdue_at ≡ true

-- Ended instances say when and, if rejected, why; steps that were acted on say by whom.
abbrev pub IsOrderly : WorkflowStore → Type 0
IsOrderly s = All IsSound s.instances × All IsAccounted s.steps

pub complete_instance-IsOrderly :
    (now : ℕ) (i : Instance) (k : ℕ) (actor : Option ℕ) (s : WorkflowStore)
    → IsOrderly s
    → IsOrderly (complete_instance now i k actor s).1
unfolding complete_instance
complete_instance-IsOrderly now i k actor s h = (
  All-save_row IsSound instance_id (completed_instance now i) s.instances (ground arith) h.0,
  h.1,
)

reject_instance-IsOrderly :
    (now : ℕ) (i : Instance) (k : ℕ) (reason : String) (actor : Actor) (s : WorkflowStore)
    → IsOrderly s
    → IsOrderly (reject_instance now i k reason actor s).1
unfolding reject_instance
reject_instance-IsOrderly now i k reason actor s h = (
  All-save_row IsSound instance_id (rejected_instance now reason i) s.instances (ground arith) h.0,
  h.1,
)

suspended-IsAccounted :
    (k : ℕ) (xs : List Step) → All IsAccounted xs → All IsAccounted (map (suspend_step k) xs)
suspended-IsAccounted k [] h = tt
suspended-IsAccounted k (x ∷ xs) h = (let own = h.0 in ground arith, suspended-IsAccounted k xs h.1)

return_for_revision-IsOrderly :
    (i : Instance) (t : Step) (d : Document) (actor : Actor) (s : WorkflowStore)
    → IsOrderly s
    → IsOrderly (return_for_revision i t d actor s).1
unfolding return_for_revision
return_for_revision-IsOrderly i t d actor s h = (
  All-save_row IsSound instance_id (record i { status = suspended }) s.instances (ground arith) h.0,
  suspended-IsAccounted i.id s.steps h.1,
)

module _ (positions : List Position) (occupant : ℕ → Option ℕ) where
  pub resolve-store :
      (r : TargetResolver) (d : Document) (s : WorkflowStore)
      → (resolve_target_position positions occupant r d s).1 ≡ s
  unfolding resolve_target_position
  resolve-store r d s = ground arith

  place_step-IsOrderly :
      (now : ℕ) (i : Instance) (def : StepDefinition) (d : Document) (position : Option ℕ)
      (s : WorkflowStore)
      → is_running i.status ≡ true
      → IsOrderly s
      → IsOrderly (place_step positions occupant now i def d position s).1
  place_step-IsOrderly now i def d none s r h = ground arith
  place_step-IsOrderly now i def d (some k) s r h = (
    All-save_row IsSound instance_id (record i { current_step_order = some def.step_order })
        s.instances (ground arith) h.0,
    (ground arith, h.1),
  )

  opened :
      (now : ℕ) (i : Instance) (def : StepDefinition) (d : Document)
      (o : Result (Option ℕ) × WorkflowStore)
      → is_running i.status ≡ true
      → IsOrderly o.1
      → IsOrderly (and_then o (place_step positions occupant now i def d)).1
  opened now i def d (return position, s) r h = place_step-IsOrderly now i def d position s r h
  opened now i def d (raise e, s) r h = h

  pub open_step-IsOrderly :
      (now : ℕ) (i : Instance) (def : StepDefinition) (d : Document) (s : WorkflowStore)
      → is_running i.status ≡ true
      → IsOrderly s
      → IsOrderly (open_step positions occupant now i def d s).1
  unfolding open_step
  open_step-IsOrderly now i def d s r h =
      opened now i def d (resolve_target_position positions occupant def.target_resolver d s) r
        (subst IsOrderly (sym (resolve-store def.target_resolver d s)) h)

  pub activate_next-IsOrderly :
      (now : ℕ) (i : Instance) (d : Document) (order : ℕ) (actor : Option ℕ)
      (defs : List StepDefinition) (s : WorkflowStore)
      → is_running i.status ≡ true
      → IsOrderly s
      → IsOrderly (activate_next positions occupant now i d order actor defs s).1
  unfolding activate_next
  activate_next-IsOrderly now i d order actor [] s r h =
      complete_instance-IsOrderly now i d.id actor s h
  activate_next-IsOrderly now i d order actor (x ∷ xs) s r h =
      elim (Bool-cases (leb x.step_order order)) [
        | inl passed ↦
            rw (passed, activate_next) (activate_next-IsOrderly now i d order actor xs s r h)
        | inr ahead ↦ elim (Bool-cases (evaluate_condition x d)) [
          | inl met ↦ rw (ahead, activate_next) (rw met (open_step-IsOrderly now i x d s r h))
          | inr unmet ↦
              rw (ahead, activate_next)
                (rw unmet
                  (activate_next-IsOrderly now i d x.step_order none xs (skip_reports i d s).1 r h))
        ]
      ]

  advance_workflow-IsOrderly :
      (now : ℕ) (i : Instance) (t : Step) (d : Document) (actor : Actor) (s : WorkflowStore)
      → is_running i.status ≡ true
      → IsOrderly s
      → IsOrderly (advance_workflow positions occupant now i t d actor s).1
  unfolding advance_workflow
  advance_workflow-IsOrderly now i t d actor s r h =
      elim (Bool-cases (must_wait positions occupant i t s)) [
        | inl waits ↦ rw (waits, advance_workflow) h
        | inr goes ↦
            rw (goes, advance_workflow)
              (activate_next-IsOrderly now i d t.step_order (some actor.id)
                (definitions_of i.template_id s) s r h)
      ]

  follow_up-IsOrderly :
      (now : ℕ) (i : Instance) (t : Step) (d : Document) (dto : ActOnStepDto) (actor : Actor)
      (action : StepAction) (s : WorkflowStore)
      → is_running i.status ≡ true
      → IsOrderly s
      → IsOrderly (follow_up positions occupant now i t d dto actor action s).1
  follow_up-IsOrderly now i t d dto actor act_rejected s r h =
      reject_instance-IsOrderly now i d.id _ actor s h
  follow_up-IsOrderly now i t d dto actor act_returned s r h =
      return_for_revision-IsOrderly i t d actor s h
  follow_up-IsOrderly now i t d dto actor act_escalated s r h = h
  follow_up-IsOrderly now i t d dto actor _ s r h = advance_workflow-IsOrderly now i t d actor s r h

  pub reported :
      (o : Result (Unit {0}) × WorkflowStore) (rs : List WorkflowReport)
      → IsOrderly o.1
      → IsOrderly (and_then o (λ _. report rs)).1
  reported (return u, s) rs h = h
  reported (raise e, s) rs h = h

  settle_action-IsOrderly :
      (now document_id : ℕ) (dto : ActOnStepDto) (actor : Actor) (d : Document) (t : Step)
      (i : Instance) (s : WorkflowStore)
      → is_running i.status ≡ true
      → IsOrderly s
      → IsOrderly (settle_action positions occupant now document_id dto actor d t i s).1
  unfolding settle_action
  settle_action-IsOrderly now document_id dto actor d t i s r h =
      let settled = acted positions occupant now dto actor t in
      reported (follow_up positions occupant now i settled d dto actor dto.action _) _ (
        follow_up-IsOrderly now i settled d dto actor dto.action _ r
          (h.0, All-save_row IsAccounted step_id settled s.steps (ground arith) h.1))

  admit_action-Checks :
      (document_id step : ℕ) (dto : ActOnStepDto) (actor : Actor) (s : WorkflowStore)
      → Checks
          (λ (p : Document × Step × Instance). is_running p.2.status ≡ true)
          s
          (admit_action positions occupant document_id step dto actor s)
  unfolding admit_action
  admit_action-Checks document_id step dto actor s = ground arith

  settled :
      (now document_id : ℕ) (dto : ActOnStepDto) (actor : Actor) (s : WorkflowStore)
      (o : Result (Document × Step × Instance) × WorkflowStore)
      → Checks (λ (p : Document × Step × Instance). is_running p.2.status ≡ true) s o
      → IsOrderly s
      → IsOrderly
          (and_then o
            (λ (d, t, i). settle_action positions occupant now document_id dto actor d t i)).1
  settled now document_id dto actor s (return (d, t, i), u) (same, r) h =
      settle_action-IsOrderly now document_id dto actor d t i u r (subst IsOrderly (sym same) h)
  settled now document_id dto actor s (raise e, u) (same, _) h = subst IsOrderly (sym same) h

  -- An action on a step keeps the store orderly: an instance that has ended says when and has no
  -- current step, one that was rejected says why, and a step that was acted on says how, by whom and
  -- when. That holds also where the request is refused or fails half-way.
  pub act_on_step-IsOrderly :
      (now document_id step : ℕ) (dto : ActOnStepDto) (actor : Actor) (s : WorkflowStore)
      → IsOrderly s
      → IsOrderly (act_on_step positions occupant now document_id step dto actor s).1
  unfolding act_on_step
  act_on_step-IsOrderly now document_id step dto actor s h =
      settled now document_id dto actor s
        (admit_action positions occupant document_id step dto actor s)
        (admit_action-Checks document_id step dto actor s) h
