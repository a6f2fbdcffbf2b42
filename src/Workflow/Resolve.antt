-- ===== src/Workflow/Resolve.antt =====
-- `resolveTargetPosition`, `resolveVacantPositionEscalation`, `evaluateCondition` and
-- `assertActionCompatibility`. The positions are the table of the org service, with a loop of
-- `getCommandChain` that ends; the occupant of a position is the answer of the user service.
use coes_platform.Base.{
  ℕ, Bool, true, false, not, ◌&&◌, Option, none, some, List, [], ◌∷◌, ◌==◌, ltb, or_else, is_some,
  find, select,
}
use coes_platform.Base.Action.{Action, not_found, pure, require, ◌>>=◌}
use coes_platform.Org.{
  Position, PositionLevel, chairman, deputy_chairman, department_head, deputy_head, division_head,
  senior_specialist, specialist, analyst, operator, clerk, get_command_chain,
  get_positions_by_department, get_all_active_positions,
}
use coes_platform.Workflow.State.{
  TargetResolver, ResolverType, fixed_position, document_author_supervisor, organization_leadership,
  recipient_head, role_in_department, unknown_type, StepCondition, StepDefinition, Document,
  StepType, review, endorsement, approval, signing, resolution, distribution, execution,
  acknowledgement, StepAction, act_reviewed, act_endorsed, act_endorsed_conditionally, act_approved,
  act_rejected, act_signed, act_resolution_issued, act_distributed, act_acknowledged, act_returned,
  WorkflowStore,
}

-- `position.level === level`, for a text that may be no level.
abbrev pub is_level : Option PositionLevel → PositionLevel → Bool
is_level (some chairman) chairman = true
is_level (some deputy_chairman) deputy_chairman = true
is_level (some department_head) department_head = true
is_level (some deputy_head) deputy_head = true
is_level (some division_head) division_head = true
is_level (some senior_specialist) senior_specialist = true
is_level (some specialist) specialist = true
is_level (some analyst) analyst = true
is_level (some operator) operator = true
is_level (some clerk) clerk = true
is_level _ _ = false

abbrev pub position_id_of : Option Position → Option ℕ
position_id_of none = none
position_id_of (some p) = some p.id

-- `chain[1]`.
abbrev pub second_of : List Position → Option ℕ
second_of (p ∷ q ∷ rest) = some q.id
second_of _ = none

-- The chain without its first position.
abbrev pub above_first : List Position → List Position
above_first [] = []
above_first (p ∷ rest) = rest

abbrev pub first_recipient : List (Option ℕ) → Option ℕ
first_recipient [] = none
first_recipient (none ∷ rest) = first_recipient rest
first_recipient (some k ∷ rest) = some k

module _ (positions : List Position) (occupant : ℕ → Option ℕ) where
  abbrev pub chain_of : ℕ → List Position
  chain_of k = or_else (get_command_chain positions k) []

  abbrev pub supervisor_of : Option ℕ → Option ℕ
  supervisor_of none = none
  supervisor_of (some k) = second_of (chain_of k)

  -- The first position of a department at a level.
  abbrev pub at_level : Option PositionLevel → ℕ → Option ℕ
  at_level level k =
      position_id_of
        (find (λ p. is_level level p.level && p.active) (get_positions_by_department positions k))

  abbrev pub leader_at : Option PositionLevel → Option ℕ
  leader_at level = position_id_of (
      find (λ p. is_some (occupant p.id))
        (select (λ p. is_level level p.level && p.active) (get_all_active_positions positions)))

  abbrev pub head_of_recipient : Option ℕ → Action WorkflowStore (Option ℕ)
  head_of_recipient none = pure none
  head_of_recipient (some k) = do
    p ← require (find (λ p. p.id == k) positions) not_found
    pure (at_level (some department_head) p.department_id)

  abbrev pub resolve_type :
      ResolverType → TargetResolver → Document → Action WorkflowStore (Option ℕ)
  resolve_type fixed_position r d = pure r.position_id
  resolve_type document_author_supervisor r d = pure (supervisor_of d.created_by_position_id)
  resolve_type ResolverType.department_head r d =
      pure (at_level (some department_head) r.department_id)
  resolve_type organization_leadership r d = pure (leader_at r.level)
  resolve_type recipient_head r d = head_of_recipient (first_recipient d.recipients)
  resolve_type role_in_department r d = pure (at_level r.role r.department_id)
  resolve_type unknown_type r d = pure none

  unfoldable pub resolve_target_position :
      TargetResolver → Document → Action WorkflowStore (Option ℕ)
  resolve_target_position r d = resolve_type r.type r d

  -- `resolveVacantPositionEscalation`: the first occupied position above the fixed one.
  abbrev pub vacancy_escalation : Option ℕ → Option ℕ
  vacancy_escalation none = none
  vacancy_escalation (some k) =
      position_id_of (find (λ p. is_some (occupant p.id)) (above_first (chain_of k)))

abbrev pub below_bound : ℕ → Option ℕ → Bool
below_bound k none = false
below_bound k (some bound) = ltb k bound

abbrev pub above_bound : ℕ → Option ℕ → Bool
above_bound k none = false
above_bound k (some bound) = ltb bound k

abbrev pub meets : Option StepCondition → Document → Bool
meets none d = true
meets (some c) d =
    not (below_bound d.classification c.gte) && not (above_bound d.classification c.lte)

-- `!(stepDef.condition && !evaluateCondition(…))`: the step is not skipped.
unfoldable pub evaluate_condition : StepDefinition → Document → Bool
evaluate_condition def d = meets def.condition d

-- `assertActionCompatibility`.
abbrev pub is_compatible : StepType → StepAction → Bool
is_compatible review act_reviewed = true
is_compatible review act_returned = true
is_compatible endorsement act_endorsed = true
is_compatible endorsement act_endorsed_conditionally = true
is_compatible endorsement act_returned = true
is_compatible approval act_approved = true
is_compatible approval act_rejected = true
is_compatible approval act_returned = true
is_compatible signing act_signed = true
is_compatible signing act_returned = true
is_compatible resolution act_resolution_issued = true
is_compatible resolution act_returned = true
is_compatible distribution act_distributed = true
is_compatible execution act_acknowledged = true
is_compatible acknowledgement act_acknowledged = true
is_compatible _ _ = false
