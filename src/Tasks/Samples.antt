-- ===== src/Tasks/Samples.antt =====
-- A small table of tasks, and what the task service does on it.
use coes_platform.Base.{ℕ, true, false, Option, none, some, List, [], ◌∷◌, ◌≡◌, refl, map}
use coes_platform.Base.Action.{return, raise, forbidden}
use coes_platform.Org.{command_chain, get_command_chain, is_subordinate_to}
use coes_platform.Org.Port.{CommandChain, command_chain_of}
use coes_platform.Org.Samples.{officers, officers-IsGrounded}
use coes_platform.Tasks.State.{
  Task, TaskType, TaskStatus, TaskAssignment, TaskStore, Actor, AssignmentType, assigned,
  in_progress, completed, verified, normal, manual, primary, co_executor, active,
}
use coes_platform.Tasks.Status.{may_go, task_transitions}
use coes_platform.Tasks.Checks.{
  cleared_task, assert_clearance, create_assignment_record, assert_assignment_authority,
  assert_transition_authority, is_task_participant,
}
use coes_platform.Tasks.Create.{CreateTaskDto, add_co_executor, admit_task, staff_task, create_task}
use coes_platform.Tasks.Transition.{
  TransitionDto, admit_transition, perform_transition, propagate_to_parent, transition_status,
}
use coes_platform.Tasks.Edit.{UpdateTaskDto, given, null, update_task, update_progress}
use coes_platform.Tasks.Executors.{admit_reassignment, reassign_task}
use coes_platform.Tasks.Extensions.{
  request_deadline_extension, review_deadline_extension, mark_overdue_tasks,
}

abbrev pub chain : CommandChain
unfolding command_chain_of
chain = command_chain_of officers officers-IsGrounded

abbrev pub actor : (position_id : ℕ) → Actor
actor k = record { id = k; position_id = k; clearance = 2 }

abbrev pub order_type : TaskType
order_type = record {
  id = 1;
  name = "order";
  default_priority = 1;
  default_deadline_days = none;
  requires_acceptance = true;
  requires_verification = true;
  supports_co_executors = true;
  supports_subtasks = true;
  supports_draft = false;
  active = true;
}

abbrev pub order : (k : ℕ) → TaskStatus → (depth : ℕ) → (parent deadline : Option ℕ) → Task
order k status depth parent deadline = record {
  id = k;
  type_id = 1;
  title = "order";
  description = none;
  status = status;
  priority = normal;
  source = manual;
  classification = 1;
  assigning_position_id = 2;
  created_by_id = 2;
  responsible_position_id = 3;
  parent_task_id = parent;
  depth = depth;
  source_document_id = none;
  source_resolution_id = none;
  deadline = deadline;
  is_overdue = false;
  overdue_at = none;
  progress_percent = 0;
  progress_note = none;
  completion_report = some "done";
  completed_at = some 40;
  cancelled_at = none;
  cancel_reason = none;
  hold_reason = none;
  cannot_execute_reason = none;
}

abbrev pub work : Task
work = order 11 in_progress 0 none (some 20)

abbrev pub part : Task
part = order 12 completed 1 (some 11) (some 15)

abbrev assignment : ℕ → ℕ → AssignmentType → TaskAssignment
assignment k position_id type = record {
  id = k;
  task_id = 11;
  position_id = position_id;
  assignment_type = type;
  status = active;
  assigned_by_position_id = 2;
  assigned_by_user_id = 2;
  deadline = none;
  accepted_at = none;
  removed_at = none;
  remove_reason = none;
}

-- Position 3 carries out task 11, and 4 helps.
abbrev pub office : TaskStore
office = record {
  types = order_type ∷ [];
  tasks = part ∷ work ∷ [];
  assignments = assignment 21 3 primary ∷ assignment 22 4 co_executor ∷ [];
  extensions = [];
  comments = [];
  attachments = [];
  reports = [];
  next_id = 31;
}

abbrev pub finish : TransitionDto
finish = record {
  target_status = completed;
  reason = none;
  completion_report = some "the dam holds";
}

abbrev pub verify : TransitionDto
verify = record { target_status = verified; reason = none; completion_report = none }

abbrev pub subtask : CreateTaskDto
subtask = record {
  type_id = 1;
  title = "survey";
  description = none;
  responsible_position_id = 3;
  priority = none;
  classification = none;
  deadline = some 18;
  co_executors = [];
  parent_task_id = some 11;
  source_document_id = none;
  source_resolution_id = none;
  source = none;
}

abbrev pub retitled : UpdateTaskDto
retitled = record {
  title = none;
  description = given "as agreed";
  priority = none;
  deadline = null;
  classification = none;
}

unfoldable pub program : Unit {0}
unfolding command_chain get_command_chain is_subordinate_to may_go task_transitions cleared_task
    assert_clearance create_assignment_record assert_assignment_authority
    assert_transition_authority is_task_participant add_co_executor admit_task staff_task
    create_task admit_transition perform_transition propagate_to_parent transition_status
    update_task update_progress admit_reassignment reassign_task request_deadline_extension
    review_deadline_extension mark_overdue_tasks command_chain_of
program = tt

abbrev statuses : TaskStore → List TaskStatus
statuses s = map (λ (t : Task). t.status) s.tasks

finished :
    statuses (transition_status chain 50 11 finish (actor 3) office).1 ≡ completed ∷ completed ∷ []
unfolding program
finished = refl

-- The assigner may not report the work as done.
not_the_executor : transition_status chain 50 11 finish (actor 1) office ≡ (raise forbidden, office)
unfolding program
not_the_executor = refl

subtask_created :
    statuses (create_task chain subtask (actor 3) office).1
    ≡ assigned ∷ completed ∷ in_progress ∷ []
unfolding program
subtask_created = refl

late_tasks : (mark_overdue_tasks 21 99 office).0 ≡ return 1
unfolding program
late_tasks = refl
