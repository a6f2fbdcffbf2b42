-- ===== src/Tasks/Executors.antt =====
-- `addExecutor`, `removeExecutor` and `reassignTask`.
use coes_platform.Base.{
  ℕ, String, Bool, not, ◌&&◌, ◌||◌, Option, none, some, [], ◌∷◌, ◌==◌, or_else, append_text,
  is_some, find, save_row,
}
use coes_platform.Base.Action.{
  Action, return, forbidden, bad_request, not_found, get, modify, pure, require, throw_if, ◌>>=◌,
  ◌>>◌,
}
use coes_platform.Org.Port.{CommandChain}
use coes_platform.Tasks.State.{
  Task, TaskAssignment, AssignmentType, primary, co_executor, removed, TaskStore, Actor, task_id,
  type_of, report, history, audit, emitted, notify, executor_added, executor_removed,
  task_reassigned, task_reassigned_to, task_reassigned_away, is_active, is_primary,
}
use coes_platform.Tasks.Checks.{cleared_task, create_assignment_record, assert_assignment_authority}

pub record AddExecutorDto : Type 0 where
  pub position_id : ℕ
  pub assignment_type : Option AssignmentType
  pub deadline : Option ℕ

abbrev pub row_id : TaskAssignment → ℕ
row_id a = a.id

-- The row after `status = REMOVED`.
abbrev pub close_assignment : (now : ℕ) → (reason : Option String) → TaskAssignment → TaskAssignment
close_assignment now reason a = record a {
  status = removed;
  removed_at = some now;
  remove_reason = reason;
}

abbrev pub save_assignment : TaskAssignment → Action TaskStore (Unit {0})
save_assignment a = modify (λ s. record s { assignments = save_row row_id a s.assignments })

-- Only the assigning authority or the primary executor.
abbrev pub leads : Task → Actor → Bool
leads task actor =
    task.responsible_position_id == actor.position_id
    || task.assigning_position_id == actor.position_id

unfoldable pub remove_executor :
    (now id assignment : ℕ) → (reason : Option String) → Actor → Action TaskStore (Unit {0})
unfolding cleared_task
remove_executor now id assignment reason actor = do
  task ← cleared_task id actor
  s ← get
  found ←
      require
        (find (λ a. a.id == assignment && a.task_id == id && is_active a.status) s.assignments)
        not_found
  throw_if (is_primary found.assignment_type) bad_request
  throw_if (not (leads task actor)) forbidden
  save_assignment (close_assignment now reason found)
  report (
      history id executor_removed (some actor.id) (some actor.position_id)
      ∷ audit "TASK_EXECUTOR_REMOVED" id actor.id
      ∷ [])

-- `if (currentAssignment)`: the active primary assignment of the position is closed.
abbrev pub close_primary : (now : ℕ) → String → Option TaskAssignment → Action TaskStore (Unit {0})
close_primary now reason none s = (return tt, s)
close_primary now reason (some a) s = save_assignment (close_assignment now (some reason) a) s

abbrev pub active_primary : (id position_id : ℕ) → TaskStore → Option TaskAssignment
active_primary id position_id s =
    find
      (λ a.
        a.task_id == id
        && a.position_id == position_id
        && is_primary a.assignment_type
        && is_active a.status)
      s.assignments

module _ (org : CommandChain) where
  unfoldable pub add_executor : ℕ → AddExecutorDto → Actor → Action TaskStore TaskAssignment
  unfolding cleared_task assert_assignment_authority
  add_executor id dto actor = do
    task ← cleared_task id actor
    s ← get
    type ← require (type_of task.type_id s) not_found
    throw_if (not type.supports_co_executors) bad_request
    throw_if (not (leads task actor)) forbidden
    assert_assignment_authority org actor.position_id dto.position_id
    throw_if
        (is_some (
          find (λ a. a.task_id == id && a.position_id == dto.position_id && is_active a.status)
            s.assignments))
        bad_request
    assignment ←
        create_assignment_record id dto.position_id (or_else dto.assignment_type co_executor) actor
          dto.deadline
    report (
        history id executor_added (some actor.id) (some actor.position_id)
        ∷ audit "TASK_EXECUTOR_ADDED" id actor.id
        ∷ emitted "task.executor_added" id
        ∷ [])
    pure assignment

  -- The checks of `reassignTask`.
  unfoldable pub admit_reassignment : (id new_position_id : ℕ) → Actor → Action TaskStore Task
  unfolding cleared_task assert_assignment_authority
  admit_reassignment id new_position_id actor = do
    task ← cleared_task id actor
    throw_if
        (not (task.assigning_position_id == actor.position_id)
          && not (org.is_subordinate_to task.responsible_position_id actor.position_id))
        forbidden
    assert_assignment_authority org actor.position_id new_position_id
    pure task

  unfoldable pub reassign_task :
      (now id new_position_id : ℕ) → (reason : String) → Actor → Action TaskStore Task
  reassign_task now id new_position_id reason actor = do
    task ← admit_reassignment id new_position_id actor
    s ← get
    close_primary now (append_text "Reassigned: " reason)
        (active_primary id task.responsible_position_id s)
    let moved : Task = record task { responsible_position_id = new_position_id }
    modify (λ t. record t { tasks = save_row task_id moved t.tasks })
    assignment ← create_assignment_record id new_position_id primary actor task.deadline
    report (
        history id task_reassigned (some actor.id) (some actor.position_id)
        ∷ audit "TASK_REASSIGNED" id actor.id
        ∷ notify task_reassigned_to new_position_id id
        ∷ notify task_reassigned_away task.responsible_position_id id
        ∷ emitted "task.reassigned" id
        ∷ [])
    pure moved
