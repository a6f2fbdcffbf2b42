-- ===== src/Tasks/Transition.antt =====
-- `transitionStatus` and `propagateToParent`.
use coes_platform.Base.{
  ℕ, String, Bool, true, false, not, ◌&&◌, Option, none, some, List, [], ◌∷◌, ◌==◌, is_id, is_blank,
  if◌then◌else◌, find, any, all, select, save_row,
}
use coes_platform.Base.Action.{
  Action, bad_request, get, modify, pure, skip, throw_if, when, ◌>>=◌, ◌>>◌,
}
use coes_platform.Org.Port.{CommandChain}
use coes_platform.Tasks.State.{
  Task, TaskAssignment, TaskStatus, draft, assigned, accepted, in_progress, on_hold, completed,
  returned, cannot_execute, cancelled, TaskStore, Actor, task_id, task_of, report, history, audit,
  changed, outbox_notify, outbox_channel, status_changed, all_subtasks_completed,
  task_all_subtasks_complete, task_subtask_blocked, is_primary,
}
use coes_platform.Tasks.Status.{may_go, same_status, is_terminal, is_blocking}
use coes_platform.Tasks.Checks.{cleared_task, assert_transition_authority}

pub record TransitionDto : Type 0 where
  pub target_status : TaskStatus
  pub reason : Option String
  pub completion_report : Option String

-- The five `if (targetStatus === … && !dto.…)`: what the request lacks.
abbrev pub lacks_field : TransitionDto → TaskStatus → Bool
lacks_field dto on_hold = is_blank dto.reason
lacks_field dto cannot_execute = is_blank dto.reason
lacks_field dto cancelled = is_blank dto.reason
lacks_field dto completed = is_blank dto.completion_report
lacks_field dto returned = is_blank dto.reason
lacks_field dto _ = false

-- The task that is saved: the new status, and the side effects of each.
abbrev pub apply_status : TransitionDto → (now : ℕ) → Task → TaskStatus → Task
apply_status dto now task completed = record task {
  status = completed;
  completion_report = dto.completion_report;
  completed_at = some now;
  progress_percent = 100;
}
apply_status dto now task cancelled = record task {
  status = cancelled;
  cancel_reason = dto.reason;
  cancelled_at = some now;
}
apply_status dto now task on_hold = record task { status = on_hold; hold_reason = dto.reason }
apply_status dto now task in_progress = record task {
  status = in_progress;
  hold_reason = if is_blank task.hold_reason then task.hold_reason else none;
}
apply_status dto now task cannot_execute = record task {
  status = cannot_execute;
  cannot_execute_reason = dto.reason;
}
apply_status dto now task other = record task { status = other }

abbrev pub assignment_id : TaskAssignment → ℕ
assignment_id a = a.id

-- `assignment.acceptedAt = new Date()` on the primary assignment of the actor's position.
abbrev pub stamp_accepted : ℕ → Option TaskAssignment → TaskStore → TaskStore
stamp_accepted now none s = s
stamp_accepted now (some a) s = record s {
  assignments = save_row assignment_id (record a { accepted_at = some now }) s.assignments;
}

abbrev pub accept_assignment : (now : ℕ) → Actor → ℕ → TaskStatus → Action TaskStore (Unit {0})
accept_assignment now actor id accepted = modify (λ s.
    stamp_accepted now
      (find
        (λ a. a.task_id == id && a.position_id == actor.position_id && is_primary a.assignment_type)
        s.assignments)
      s)
accept_assignment now actor id _ = skip

abbrev pub children_of : ℕ → TaskStore → List Task
children_of k s = select (λ t. is_id t.parent_task_id k) s.tasks

abbrev pub is_empty : List Task → Bool
is_empty [] = true
is_empty (t ∷ ts) = false

-- `propagateToParent` once the parent is found: it only notifies.
abbrev pub notify_parent : Actor → Task → List Task → Action TaskStore (Unit {0})
notify_parent actor parent children = do
  when (all (λ c. is_terminal c.status) children && same_status parent.status in_progress) (
      report (
        outbox_notify task_all_subtasks_complete parent.responsible_position_id parent.id
        ∷ history parent.id all_subtasks_completed (some actor.id) (some actor.position_id)
        ∷ []))
  when (any (λ c. is_blocking c.status) children && same_status parent.status in_progress)
      (report (outbox_notify task_subtask_blocked parent.responsible_position_id parent.id ∷ []))

abbrev pub propagate_found : Actor → Option Task → Action TaskStore (Unit {0})
propagate_found actor none = skip
propagate_found actor (some parent) = do
  s ← get
  let children = children_of parent.id s
  when (not (is_empty children)) (notify_parent actor parent children)

unfoldable pub propagate_to_parent : Actor → Option ℕ → Action TaskStore (Unit {0})
propagate_to_parent actor none = skip
propagate_to_parent actor (some k) = do s ← get; propagate_found actor (task_of k s)

abbrev pub request_channel : Task → TaskStatus → TaskStatus → Action TaskStore (Unit {0})
request_channel task draft assigned =
    report (outbox_channel task.id task.responsible_position_id task.assigning_position_id ∷ [])
request_channel task _ _ = skip

-- What follows the checks.
unfoldable pub perform_transition :
    (now id : ℕ) → TransitionDto → Actor → Task → Action TaskStore Task
perform_transition now id dto actor task = do
  let moved = apply_status dto now task dto.target_status
  accept_assignment now actor id dto.target_status
  modify (λ s. record s { tasks = save_row task_id moved s.tasks })
  report (
      history id status_changed (some actor.id) (some actor.position_id)
      ∷ audit "TASK_STATUS_CHANGED" id actor.id
      ∷ changed id task.status dto.target_status actor.id
      ∷ [])
  propagate_to_parent actor task.parent_task_id
  request_channel moved task.status dto.target_status
  pure moved

module _ (org : CommandChain) where
  -- What is checked before anything is written.
  unfoldable pub admit_transition : ℕ → TransitionDto → Actor → Action TaskStore Task
  unfolding cleared_task assert_transition_authority
  admit_transition id dto actor = do
    task ← cleared_task id actor
    throw_if (not (may_go task.status dto.target_status)) bad_request
    assert_transition_authority org task dto.target_status actor.position_id
    throw_if (lacks_field dto dto.target_status) bad_request
    pure task

  unfoldable pub transition_status : (now id : ℕ) → TransitionDto → Actor → Action TaskStore Task
  transition_status now id dto actor = do
    task ← admit_transition id dto actor
    perform_transition now id dto actor task
