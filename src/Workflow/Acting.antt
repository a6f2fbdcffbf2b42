-- ===== src/Workflow/Acting.antt =====
-- Who may act on a step, and on what.
use coes_platform.Base.{
  ℕ, true, false, ◌&&◌, Option, none, some, List, [], ◌∷◌, ◌≡◌, ◌∙◌, ap, subst, ltb, refl, ◌==◌,
  is_some, find, select, length, All, HasIds, update_where, save_all, save_all-select, save_row,
  Bool-cases, Option-cases, inl, inr, arith,
}
use coes_platform.Base.Action.{Exception, not_found, forbidden, return, raise, for_each}
use coes_platform.Org.{Position}
use coes_platform.Workflow.State.{
  Step, WorkflowStore, Actor, step_id, instance_of, document_of, is_active,
}
use coes_platform.Workflow.Actions.{
  ActOnStepDto, admit_action, act_on_step, is_late, flag_overdue, report_overdue, overdue_round,
  mark_overdue_steps,
}

module _ (positions : List Position) (occupant : ℕ → Option ℕ) where
  -- With any delegation id in the request, it does not matter from which position the actor acts:
  -- the checks give the same verdict for every position.
  pub admit_action-delegated :
      (document_id step : ℕ) (dto : ActOnStepDto) (actor : Actor) (other : ℕ) (s : WorkflowStore)
      → is_some dto.delegation_id ≡ true
      → admit_action positions occupant document_id step dto actor s
        ≡ admit_action positions occupant document_id step dto
            (record actor { position_id = other })
            s
  unfolding admit_action
  admit_action-delegated document_id step dto actor other s given = ground arith

loop-steps :
    (now : ℕ) (late : List Step) (s : WorkflowStore)
    → (for_each (overdue_round now) late s).1.steps
      ≡ save_all step_id (flag_overdue now) late s.steps
loop-steps now [] s = refl
loop-steps now (t ∷ late) s =
    let saved : WorkflowStore = record s {
      steps = save_row step_id (flag_overdue now t) s.steps;
    } in
    elim (Option-cases (instance_of t.instance_id saved)) [
      | inl missing ↦ rw missing (loop-steps now late saved)
      | inr (i, found) ↦ rw found (loop-steps now late (report_overdue t (some i) saved).1)
    ]

not_active :
    (k : ℕ) (xs : List Step)
    → All (λ x. (x.id == k) ≡ false) xs
    → (now : ℕ)
    → find
        (λ x. x.id == k && is_active x.status)
        (update_where step_id (is_late now) (flag_overdue now) xs)
      ≡ none
not_active k [] a now = refl
not_active k (x ∷ xs) a now = let other = a.0 in let rest = not_active k xs a.1 now in ground arith

loop-returns :
    (now : ℕ) (late : List Step) (s : WorkflowStore)
    → (for_each (overdue_round now) late s).0 ≡ return tt
loop-returns now [] s = refl
loop-returns now (t ∷ late) s =
    let saved : WorkflowStore = record s {
      steps = save_row step_id (flag_overdue now t) s.steps;
    } in
    elim (Option-cases (instance_of t.instance_id saved)) [
      | inl missing ↦ rw missing (loop-returns now late saved)
      | inr (i, found) ↦ rw found (loop-returns now late (report_overdue t (some i) saved).1)
    ]

-- In a table with distinct ids, the overdue detection flags every active step whose deadline is past,
-- and changes no other step. It returns the number of the steps that it flagged.
mark_overdue_steps_lem :
    (now : ℕ) (s : WorkflowStore)
    → HasIds step_id s.steps
    → ((mark_overdue_steps now s).0 ≡ return (length (select (is_late now) s.steps)))
      × ((mark_overdue_steps now s).1.steps
          ≡ update_where step_id (is_late now) (flag_overdue now) s.steps)
unfolding mark_overdue_steps
mark_overdue_steps_lem now s ids =
    let late = select (is_late now) s.steps in
    let returns = loop-returns now late s in
    let steps =
      loop-steps now late s
      ∙ save_all-select step_id (flag_overdue now) (λ t. refl) (is_late now) s.steps ids in
    (ground arith, ground arith)

late_not_active :
    (now k : ℕ) (xs : List Step) (t : Step)
    → HasIds step_id xs
    → find (λ x. x.id == k) xs ≡ some t
    → is_late now t ≡ true
    → find
        (λ x. x.id == k && is_active x.status)
        (update_where step_id (is_late now) (flag_overdue now) xs)
      ≡ none
late_not_active now k [] t ids found late = refl
late_not_active now k (x ∷ xs) t ids found late = elim (Bool-cases (x.id == k)) [
  | inl own ↦
      let same : x ≡ t = ground arith in
      let late_x : is_late now x ≡ true = ap (is_late now) same ∙ late in
      let key : x.id ≡ k = ground arith in
      let rest = not_active k xs (subst (λ j. All (λ y. (y.id == j) ≡ false) xs) key ids.0) now in
      rw late_x (rw own rest)
  | inr other ↦
      let rest = late_not_active now k xs t ids.1 (rw other at found) late in
      elim (Bool-cases (is_late now x)) [
        | inl flagged ↦ rw flagged (rw other rest)
        | inr kept ↦ rw kept (rw other rest)
      ]
]

module _ (positions : List Position) (occupant : ℕ → Option ℕ) where
  unfound-act :
      (now document_id step : ℕ) (dto : ActOnStepDto) (actor : Actor) (s : WorkflowStore)
      → find (λ t. t.id == step && is_active t.status) s.steps ≡ none
      → (e : Exception) × (act_on_step positions occupant now document_id step dto actor s
          ≡ (raise e, s))
  unfolding act_on_step admit_action
  unfound-act now document_id step dto actor s missing =
      elim (Option-cases (document_of document_id s)) [
        | inl none_such ↦ rw none_such (not_found, refl)
        | inr (d, found) ↦ elim (Bool-cases (ltb actor.clearance d.classification)) [
          | inl low ↦ rw found (rw low (forbidden, refl))
          | inr cleared ↦ rw found (rw cleared (rw missing (not_found, refl)))
        ]
      ]

  -- In a table with distinct ids, a step that the overdue detection flags can no longer be acted on,
  -- by anyone: every request is refused and changes nothing.
  pub act_on_step-overdue :
      (now later document_id : ℕ) (dto : ActOnStepDto) (actor : Actor) (s : WorkflowStore)
      (t : Step)
      → HasIds step_id s.steps
      → find (λ x. x.id == t.id) s.steps ≡ some t
      → is_late now t ≡ true
      → let after = (mark_overdue_steps now s).1 in
        (e : Exception) × (act_on_step positions occupant later document_id t.id dto actor after
          ≡ (raise e, after))
  act_on_step-overdue now later document_id dto actor s t ids found late =
      let after = (mark_overdue_steps now s).1 in
      unfound-act later document_id t.id dto actor after (
        ap (find (λ x. x.id == t.id && is_active x.status)) (mark_overdue_steps_lem now s ids).1
        ∙ late_not_active now t.id s.steps t ids found late)
