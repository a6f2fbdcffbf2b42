-- ===== src/Workflow/Runs.antt =====
-- Any sequence of requests to the workflow engine, each carried out or refused.
use coes_platform.Base.{
  ℕ, true, Option, none, some, List, [], ◌∷◌, ◌≡◌, refl, is_some, find, select, All-save_row,
  save_row, Bool-cases, Option-cases, inl, inr, arith, ltb, not, ◌==◌, greatest_by, ◌&&◌, length,
}
use coes_platform.Base.Action.{Action, Result, return, raise, and_then, for_each, pure}
use coes_platform.Org.{Position}
use coes_platform.Workflow.State.{
  running, StepDefinition, Document, Template, Instance, Step, WorkflowStore, Actor, step_id,
  instance_id, document_of, instance_of, history, is_running, is_suspended, is_returned,
}
use coes_platform.Workflow.Resolve.{evaluate_condition}
use coes_platform.Workflow.Instances.{definitions_of, skip_reports}
use coes_platform.Workflow.Engine.{activate_step}
use coes_platform.Workflow.Actions.{
  ActOnStepDto, act_on_step, enter_first, start_with, start_workflow, enter_found, return_target,
  resume_workflow, is_late, flag_overdue, overdue_round, mark_overdue_steps,
}
use coes_platform.Workflow.Valid.{
  IsSound, IsAccounted, IsOrderly, complete_instance-IsOrderly, open_step-IsOrderly,
  activate_next-IsOrderly, reported, act_on_step-IsOrderly,
}

pub data Request : Type 0 where
  start : (now document_id actor : ℕ) → Option ℕ → Request
  act : (now document_id step : ℕ) → ActOnStepDto → Actor → Request
  resume : (now document_id : ℕ) → Actor → Request
  detection : (now : ℕ) → Request

overdue_round-IsOrderly :
    (now : ℕ) (t : Step) (s : WorkflowStore) → IsOrderly s → IsOrderly (overdue_round now t s).1
overdue_round-IsOrderly now t s h =
    let saved = All-save_row IsAccounted step_id (flag_overdue now t) s.steps (ground arith) h.1 in
    elim (Option-cases (instance_of t.instance_id s)) [
      | inl missing ↦ rw missing (h.0, saved)
      | inr (i, found) ↦ rw found (h.0, saved)
    ]

after_round :
    (o : Result (Unit {0}) × WorkflowStore) (next : Action WorkflowStore (Unit {0}))
    → IsOrderly o.1
    → ((s : WorkflowStore) → IsOrderly s → IsOrderly (next s).1)
    → IsOrderly (and_then o (λ _. next)).1
after_round (return u, s) next h keep = keep s h
after_round (raise e, s) next h keep = h

overdue_loop-IsOrderly :
    (now : ℕ) (late : List Step) (s : WorkflowStore)
    → IsOrderly s
    → IsOrderly (for_each (overdue_round now) late s).1
overdue_loop-IsOrderly now [] s h = h
overdue_loop-IsOrderly now (t ∷ late) s h =
    after_round (overdue_round now t s) (for_each (overdue_round now) late)
      (overdue_round-IsOrderly now t s h) (overdue_loop-IsOrderly now late)

valued {ℓ} :
    {A : Type ℓ} (o : Result (Unit {0}) × WorkflowStore) (a : A)
    → IsOrderly o.1
    → IsOrderly (and_then o (λ _. pure a)).1
valued (return u, s) a h = h
valued (raise e, s) a h = h

mark_overdue_steps-IsOrderly :
    (now : ℕ) (s : WorkflowStore) → IsOrderly s → IsOrderly (mark_overdue_steps now s).1
unfolding mark_overdue_steps
mark_overdue_steps-IsOrderly now s h =
    let late = select (is_late now) s.steps in
    valued (for_each (overdue_round now) late s) (length late) (overdue_loop-IsOrderly now late s h)

module _ (positions : List Position) (occupant : ℕ → Option ℕ) where
  activate_step-IsOrderly :
      (now : ℕ) (i : Instance) (def : StepDefinition) (d : Document) (s : WorkflowStore)
      → is_running i.status ≡ true
      → IsOrderly s
      → IsOrderly (activate_step positions occupant now i def d s).1
  unfolding activate_step
  activate_step-IsOrderly now i def d s r h = elim (Bool-cases (evaluate_condition def d)) [
    | inl met ↦ rw (met, activate_step) (open_step-IsOrderly positions occupant now i def d s r h)
    | inr unmet ↦
        rw (unmet, activate_step)
          (activate_next-IsOrderly positions occupant now i d def.step_order none
            (definitions_of i.template_id s) (skip_reports i d s).1 r h)
  ]

  enter_first-IsOrderly :
      (now : ℕ) (i : Instance) (d : Document) (actor : ℕ) (defs : List StepDefinition)
      (s : WorkflowStore)
      → is_running i.status ≡ true
      → IsOrderly s
      → IsOrderly (enter_first positions occupant now i d actor defs s).1
  enter_first-IsOrderly now i d actor [] s r h =
      complete_instance-IsOrderly now i d.id (some actor) s h
  enter_first-IsOrderly now i d actor (def ∷ defs) s r h = activate_step-IsOrderly now i def d s r h

  enter_found-IsOrderly :
      (now : ℕ) (i : Instance) (d : Document) (o : Option StepDefinition) (s : WorkflowStore)
      → is_running i.status ≡ true
      → IsOrderly s
      → IsOrderly (enter_found positions occupant now i d o s).1
  enter_found-IsOrderly now i d none s r h = h
  enter_found-IsOrderly now i d (some def) s r h = activate_step-IsOrderly now i def d s r h

  start_with-IsOrderly :
      (now : ℕ) (d : Document) (actor : ℕ) (position : Option ℕ) (o : Option Template)
      (s : WorkflowStore)
      → IsOrderly s
      → IsOrderly (start_with positions occupant now d actor position o s).1
  start_with-IsOrderly now d actor position none s h = h
  start_with-IsOrderly now d actor position (some t) s h =
      elim (Bool-cases
        (is_some (find (λ i. i.document_id == d.id && is_running i.status) s.instances))) [
          | inl busy ↦ rw busy h
          | inr free ↦ rw free (
              valued (enter_first positions occupant now _ d actor (definitions_of t.id s) _) _ (
                enter_first-IsOrderly now _ d actor (definitions_of t.id s) _ refl
                  ((ground arith, h.0), h.1)))
        ]

  start_workflow-IsOrderly :
      (now document_id actor : ℕ) (position : Option ℕ) (s : WorkflowStore)
      → IsOrderly s
      → IsOrderly (start_workflow positions occupant now document_id actor position s).1
  unfolding start_workflow
  start_workflow-IsOrderly now document_id actor position s h =
      elim (Option-cases (document_of document_id s)) [
        | inl missing ↦ rw missing h
        | inr (d, found) ↦ rw found (start_with-IsOrderly now d actor position _ s h)
      ]

  resume_workflow-IsOrderly :
      (now document_id : ℕ) (actor : Actor) (s : WorkflowStore)
      → IsOrderly s
      → IsOrderly (resume_workflow positions occupant now document_id actor s).1
  unfolding resume_workflow
  resume_workflow-IsOrderly now document_id actor s h =
      elim (Option-cases
        (find (λ i. i.document_id == document_id && is_suspended i.status) s.instances)) [
          | inl missing ↦ rw missing h
          | inr (i, found) ↦ elim (Option-cases (document_of document_id s)) [
            | inl missing ↦ rw found (rw missing h)
            | inr (d, known) ↦ elim (Bool-cases (ltb actor.clearance d.classification)) [
              | inl low ↦ rw found (rw known (rw low h))
              | inr cleared ↦ elim (Bool-cases (not (d.created_by_id == actor.id))) [
                | inl other ↦ rw found (rw known (rw cleared (rw other h)))
                | inr author ↦
                    let resumed : Instance = record i { status = running } in
                    let saved =
                      All-save_row IsSound instance_id resumed s.instances (ground arith) h.0 in
                    let defs = definitions_of i.template_id s in
                    let back = return_target positions occupant defs (
                      greatest_by (λ t. t.step_order)
                        (select (λ t. t.instance_id == i.id && is_returned t.status) s.steps)) in
                    let target = find (λ def. def.step_order == back) defs in
                    let stored : WorkflowStore = record s {
                      instances = save_row instance_id resumed s.instances;
                    } in
                    let entered =
                      reported positions occupant
                        (enter_found positions occupant now resumed d target stored)
                        (history "workflow_resumed" document_id i.id none (some actor.id) ∷ [])
                        (enter_found-IsOrderly now resumed d target stored refl (saved, h.1)) in
                    rw found (rw known (rw cleared (rw author entered)))
              ]
            ]
          ]
        ]

  -- The store after a request.
  serve : Request → WorkflowStore → WorkflowStore
  serve (start now document_id actor position) s =
      (start_workflow positions occupant now document_id actor position s).1
  serve (act now document_id step dto actor) s =
      (act_on_step positions occupant now document_id step dto actor s).1
  serve (resume now document_id actor) s =
      (resume_workflow positions occupant now document_id actor s).1
  serve (detection now) s = (mark_overdue_steps now s).1

  pub serve_requests : List Request → WorkflowStore → WorkflowStore
  unfolding serve
  serve_requests [] s = s
  serve_requests (r ∷ rs) s = serve_requests rs (serve r s)

  serve-IsOrderly : (r : Request) (s : WorkflowStore) → IsOrderly s → IsOrderly (serve r s)
  unfolding serve
  serve-IsOrderly (start now document_id actor position) s h =
      start_workflow-IsOrderly now document_id actor position s h
  serve-IsOrderly (act now document_id step dto actor) s h =
      act_on_step-IsOrderly positions occupant now document_id step dto actor s h
  serve-IsOrderly (resume now document_id actor) s h =
      resume_workflow-IsOrderly now document_id actor s h
  serve-IsOrderly (detection now) s h = mark_overdue_steps-IsOrderly now s h

  -- Whatever workflows are started, acted on, resumed and found overdue, and whether a request is
  -- carried out, refused or fails half-way, the store stays orderly: an instance that has ended says
  -- when and has no current step, one that was rejected says why, and a step that was acted on says
  -- how, by whom and when.
  pub serve_requests-IsOrderly :
      (rs : List Request) (s : WorkflowStore) → IsOrderly s → IsOrderly (serve_requests rs s)
  unfolding serve_requests
  serve_requests-IsOrderly [] s h = h
  serve_requests-IsOrderly (r ∷ rs) s h =
      serve_requests-IsOrderly rs (serve r s) (serve-IsOrderly r s h)
