-- ===== src/Tasks/Create.antt =====
-- `createTask`.
use coes_platform.Base.{
  ℕ, ◌+◌, String, false, not, ◌&&◌, Option, none, some, List, [], ◌∷◌, ◌==◌, leb, if◌then◌else◌,
  or_else, find,
}
use coes_platform.Base.Action.{
  Action, not_found, bad_request, forbidden, get, modify, pure, require, throw_if, for_each, ◌>>=◌,
  ◌>>◌,
}
use coes_platform.Org.Port.{CommandChain}
use coes_platform.Tasks.State.{
  Task, TaskType, TaskPriority, TaskSource, draft, assigned, normal, manual, primary, co_executor,
  TaskStore, Actor, task_of, fresh_id, report, history, audit, emitted, task_created,
}
use coes_platform.Tasks.Checks.{create_assignment_record, assert_assignment_authority}

pub record CoExecutorDto : Type 0 where
  pub position_id : ℕ
  pub deadline : Option ℕ

pub record CreateTaskDto : Type 0 where
  pub type_id : ℕ
  pub title : String
  pub description : Option String
  pub responsible_position_id : ℕ
  pub priority : Option TaskPriority
  pub classification : Option ℕ
  pub deadline : Option ℕ
  pub co_executors : List CoExecutorDto
  pub parent_task_id : Option ℕ
  pub source_document_id : Option ℕ
  pub source_resolution_id : Option ℕ
  pub source : Option TaskSource

abbrev pub max_subtask_depth : ℕ
max_subtask_depth = 3

-- `if (dto.parentTaskId)`: the depth of the new task.
abbrev pub subtask_depth : TaskType → Actor → Option ℕ → Action TaskStore ℕ
subtask_depth type actor none = pure 0
subtask_depth type actor (some k) = do
  s ← get
  parent ← require (task_of k s) not_found
  throw_if (not type.supports_subtasks) bad_request
  throw_if (leb max_subtask_depth parent.depth) bad_request
  throw_if
      (not (parent.responsible_position_id == actor.position_id)
        && not (parent.assigning_position_id == actor.position_id))
      forbidden
  pure (parent.depth + 1)

-- The entity, with the database's defaults for the columns that the service leaves out.
abbrev pub new_task : (new_id depth : ℕ) → CreateTaskDto → TaskType → Actor → Task
new_task new_id depth dto type actor = record {
  id = new_id;
  type_id = dto.type_id;
  title = dto.title;
  description = dto.description;
  status = if type.supports_draft then draft else assigned;
  priority = or_else dto.priority normal;
  source = or_else dto.source manual;
  classification = or_else dto.classification 1;
  assigning_position_id = actor.position_id;
  created_by_id = actor.id;
  responsible_position_id = dto.responsible_position_id;
  parent_task_id = dto.parent_task_id;
  depth = depth;
  source_document_id = dto.source_document_id;
  source_resolution_id = dto.source_resolution_id;
  deadline = dto.deadline;
  is_overdue = false;
  overdue_at = none;
  progress_percent = 0;
  progress_note = none;
  completion_report = none;
  completed_at = none;
  cancelled_at = none;
  cancel_reason = none;
  hold_reason = none;
  cannot_execute_reason = none;
}

module _ (org : CommandChain) where
  -- The body of the loop over the co-executors.
  unfoldable pub add_co_executor : ℕ → Actor → CoExecutorDto → Action TaskStore (Unit {0})
  add_co_executor task_id actor co = do
    assert_assignment_authority org actor.position_id co.position_id
    assignment ← create_assignment_record task_id co.position_id co_executor actor co.deadline
    pure tt

  -- `if (dto.coExecutors?.length && taskType.supportsCoExecutors)`.
  abbrev pub accepted_co_executors : TaskType → List CoExecutorDto → List CoExecutorDto
  accepted_co_executors type dtos = if type.supports_co_executors then dtos else []

  -- The checks, before anything is written.
  unfoldable pub admit_task : CreateTaskDto → Actor → Action TaskStore (TaskType × ℕ)
  admit_task dto actor = do
    s ← get
    type ← require (find (λ t. t.id == dto.type_id && t.active) s.types) not_found
    assert_assignment_authority org actor.position_id dto.responsible_position_id
    depth ← subtask_depth type actor dto.parent_task_id
    pure (type, depth)

  -- The assignments and the reports of a task that has been saved.
  unfoldable pub staff_task : CreateTaskDto → TaskType → Actor → Task → Action TaskStore (Unit {0})
  unfolding add_co_executor
  staff_task dto type actor task = do
    assignment ←
        create_assignment_record task.id dto.responsible_position_id primary actor dto.deadline
    for_each (add_co_executor task.id actor) (accepted_co_executors type dto.co_executors)
    report (
        history task.id task_created (some actor.id) (some actor.position_id)
        ∷ audit "TASK_CREATED" task.id actor.id
        ∷ emitted "task.created" task.id
        ∷ [])

  unfoldable pub create_task : CreateTaskDto → Actor → Action TaskStore Task
  create_task dto actor = do
    (type, depth) ← admit_task dto actor
    new_id ← fresh_id
    let task = new_task new_id depth dto type actor
    modify (λ s. record s { tasks = task ∷ s.tasks })
    staff_task dto type actor task
    pure task
