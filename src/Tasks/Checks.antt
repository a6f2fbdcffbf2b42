-- ===== src/Tasks/Checks.antt =====
-- The private helpers of tasks.service.ts that check a request or add a row.
use coes_platform.Base.{
  ℕ, Bool, true, not, ◌&&◌, ◌||◌, Option, none, ◌∷◌, ◌==◌, ltb, any, if◌then◌else◌, is_some, find,
}
use coes_platform.Base.Action.{
  Action, forbidden, not_found, query_failed, get, modify, pure, skip, require, throw_if, ◌>>=◌,
  ◌>>◌,
}
use coes_platform.Org.Port.{CommandChain}
use coes_platform.Tasks.State.{
  TaskStatus, draft, assigned, accepted, in_progress, on_hold, completed, verified, returned,
  cannot_execute, cancelled, closed, Task, TaskAssignment, AssignmentType, active, TaskStore, Actor,
  task_of, fresh_id, is_active,
}

unfoldable pub assert_clearance : ℕ → ℕ → Action TaskStore (Unit {0})
assert_clearance user_clearance resource_classification =
    throw_if (ltb user_clearance resource_classification) forbidden

-- The head of most methods: the task exists, and the actor is cleared for it.
unfoldable pub cleared_task : ℕ → Actor → Action TaskStore Task
unfolding assert_clearance
cleared_task id actor = do
  s ← get
  task ← require (task_of id s) not_found
  assert_clearance actor.clearance task.classification
  pure task

-- The unique index: one active row for a position of a task.
abbrev pub is_assigned : ℕ → ℕ → TaskStore → Bool
is_assigned task_id position_id s =
    any (λ a. a.task_id == task_id && a.position_id == position_id && is_active a.status)
      s.assignments

unfoldable pub create_assignment_record :
    (task_id position_id : ℕ) → AssignmentType → Actor → Option ℕ → Action TaskStore TaskAssignment
create_assignment_record task_id position_id type actor deadline = do
  s ← get
  throw_if (is_assigned task_id position_id s) query_failed
  new_id ← fresh_id
  let assignment : TaskAssignment = record {
    id = new_id;
    task_id = task_id;
    position_id = position_id;
    assignment_type = type;
    status = active;
    assigned_by_position_id = actor.position_id;
    assigned_by_user_id = actor.id;
    deadline = deadline;
    accepted_at = none;
    removed_at = none;
    remove_reason = none;
  }
  modify (λ t. record t { assignments = assignment ∷ t.assignments })
  pure assignment

-- `isTaskParticipant`.
unfoldable pub is_task_participant : ℕ → ℕ → TaskStore → Bool
is_task_participant task_id position_id s = is_some (
    find (λ a. a.task_id == task_id && a.position_id == position_id && is_active a.status)
      s.assignments)

-- The `switch` of `assertTransitionAuthority`, given the three tests above it.
abbrev pub may_enter : (executor assigning supervisor : Bool) → TaskStatus → Bool
may_enter executor assigning supervisor accepted = executor
may_enter executor assigning supervisor in_progress = executor || supervisor
may_enter executor assigning supervisor completed = executor
may_enter executor assigning supervisor verified = assigning || supervisor
may_enter executor assigning supervisor returned = assigning || supervisor
may_enter executor assigning supervisor cancelled = assigning || supervisor
may_enter executor assigning supervisor on_hold = executor || supervisor
may_enter executor assigning supervisor cannot_execute = executor
may_enter executor assigning supervisor assigned = assigning || supervisor
may_enter executor assigning supervisor closed = assigning || supervisor
may_enter executor assigning supervisor draft = true

module _ (org : CommandChain) where
  unfoldable pub assert_assignment_authority : (assigner target : ℕ) → Action TaskStore (Unit {0})
  assert_assignment_authority assigner target =
      if assigner == target
      then skip
      else throw_if (not (org.is_subordinate_to target assigner)) forbidden

  unfoldable pub is_task_participant_or_supervisor : Actor → Task → TaskStore → Bool
  unfolding is_task_participant
  is_task_participant_or_supervisor actor task s =
      is_task_participant task.id actor.position_id s
      || (task.assigning_position_id == actor.position_id
          || org.is_subordinate_to task.responsible_position_id actor.position_id)

  unfoldable pub assert_transition_authority : Task → TaskStatus → ℕ → Action TaskStore (Unit {0})
  assert_transition_authority task target actor_position =
      throw_if
        (not (
          may_enter (task.responsible_position_id == actor_position)
            (task.assigning_position_id == actor_position)
            (org.is_subordinate_to task.responsible_position_id actor_position) target))
        forbidden
