-- ===== src/Workflow/Skips.antt =====
-- Which step comes next: the steps whose condition is not met are skipped.
use coes_platform.Base.{
  ℕ, ◌<◌, Bool, true, false, ◌&&◌, Option, none, some, List, [], ◌∷◌, ◌++◌, ◌≡◌, ◌∙◌, ap, refl, ltb,
  leb, find, All, Bool-cases, inl, inr, arith,
}
use coes_platform.Base.Action.{Action}
use coes_platform.Org.{Position}
use coes_platform.Workflow.State.{
  StepDefinition, Document, Instance, WorkflowStore, WorkflowReport, history,
}
use coes_platform.Workflow.Resolve.{evaluate_condition}
use coes_platform.Workflow.Instances.{complete_instance}
use coes_platform.Workflow.Engine.{open_step, activate_next}

-- The definitions have rising orders.
abbrev pub IsAscending : List StepDefinition → Type 0
IsAscending [] = Unit
IsAscending (x ∷ xs) = All (λ y. x.step_order < y.step_order) xs × IsAscending xs

-- The definition comes after the order, and its condition is met.
abbrev pub is_next : ℕ → Document → StepDefinition → Bool
is_next order d def = ltb order def.step_order && evaluate_condition def d

find-is_next :
    (low high : ℕ) (d : Document) (defs : List StepDefinition)
    → low < high
    → All (λ x. high < x.step_order) defs
    → find (is_next high d) defs ≡ find (is_next low d) defs
find-is_next low high d [] h a = refl
find-is_next low high d (x ∷ xs) h a =
    let rest = find-is_next low high d xs h a.1 in let above = a.0 in ground arith

module _ (positions : List Position) (occupant : ℕ → Option ℕ) where
  -- What is done with the definition that was found.
  abbrev pub go_to :
      (now : ℕ)
      → Instance
      → Document
      → (actor : Option ℕ) → Option StepDefinition
      → Action WorkflowStore (Unit {0})
  go_to now i d actor none = complete_instance now i d.id actor
  go_to now i d actor (some def) = open_step positions occupant now i def d

  -- Where the definitions have rising orders, the engine opens the first definition after the order
  -- whose condition is met, and completes the instance if there is none; what it skips on the way
  -- changes nothing but the reports.
  pub activate_next_lem :
      (now : ℕ) (i : Instance) (d : Document) (order : ℕ) (actor : Option ℕ)
      (defs : List StepDefinition) (s : WorkflowStore)
      → IsAscending defs
      → (reports : List WorkflowReport) × (who : Option ℕ) × (activate_next positions occupant now i
            d order actor defs s
          ≡ go_to now i d who (find (is_next order d) defs) (record s { reports = reports }))
  unfolding activate_next
  activate_next_lem now i d order actor [] s a = (s.reports, actor, refl)
  activate_next_lem now i d order actor (x ∷ xs) s a = elim (Bool-cases (leb x.step_order order)) [
    | inl passed ↦
        let later : ltb order x.step_order ≡ false = ground arith in
        let (reports, who, same) = activate_next_lem now i d order actor xs s a.1 in
        (reports, who, rw (passed, activate_next) (rw later same))
    | inr ahead ↦
        let later : ltb order x.step_order ≡ true = ground arith in
        elim (Bool-cases (evaluate_condition x d)) [
          | inl met ↦ (s.reports, actor, rw (ahead, activate_next) (rw met (rw later refl)))
          | inr unmet ↦
              let after : WorkflowStore = record s {
                reports = s.reports ++ history "step_skipped" d.id i.id none none ∷ [];
              } in
              let (reports, who, same) = activate_next_lem now i d x.step_order none xs after a.1 in
              let shift = find-is_next order x.step_order d xs (ground arith) a.0 in
              (
                reports,
                who,
                rw (ahead, activate_next)
                    (rw unmet (
                      rw later (
                        same
                        ∙ ap (λ o. go_to now i d who o (record s { reports = reports })) shift))),
              )
        ]
  ]
