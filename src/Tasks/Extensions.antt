-- ===== src/Tasks/Extensions.antt =====
-- `requestDeadlineExtension`, `reviewDeadlineExtension` and `markOverdueTasks`.
use coes_platform.Base.{
  ℕ, suc, String, Bool, true, false, not, ◌&&◌, Option, none, some, [], ◌∷◌, ◌==◌, leb, ltb,
  is_some, find, select, save_row, length,
}
use coes_platform.Base.Action.{
  Action, forbidden, bad_request, not_found, get, modify, pure, skip, require, throw_if, for_each,
  ◌>>=◌, ◌>>◌,
}
use coes_platform.Org.Port.{CommandChain}
use coes_platform.Tasks.State.{
  Task, TaskStatus, completed, verified, cancelled, closed, cannot_execute, DeadlineExtension,
  ExtensionStatus, pending, approved, denied, TaskStore, Actor, task_id, fresh_id, report, history,
  audit, notify, overdue, deadline_extension_requested, deadline_extended, marked_overdue,
  extension_requested, extension_approved, extension_denied, is_open,
}
use coes_platform.Tasks.Checks.{cleared_task}

abbrev pub extension_id : DeadlineExtension → ℕ
extension_id r = r.id

abbrev pub add_extension : DeadlineExtension → TaskStore → TaskStore
add_extension r s = record s { extensions = r ∷ s.extensions }

unfoldable pub request_deadline_extension :
    (id requested_deadline : ℕ)
    → (justification : String) → Actor
    → Action TaskStore DeadlineExtension
unfolding cleared_task
request_deadline_extension id requested_deadline justification actor = do
  task ← cleared_task id actor
  throw_if (not (task.responsible_position_id == actor.position_id)) forbidden
  deadline ← require task.deadline bad_request
  throw_if (leb requested_deadline deadline) bad_request
  s ← get
  throw_if (is_some (find (λ r. r.task_id == id && is_open r.status) s.extensions)) bad_request
  new_id ← fresh_id
  let request : DeadlineExtension = record {
    id = new_id;
    task_id = id;
    requester_position_id = actor.position_id;
    requester_id = actor.id;
    current_deadline = deadline;
    requested_deadline = requested_deadline;
    justification = justification;
    status = pending;
    reviewed_by_position_id = none;
    reviewed_by_id = none;
    review_remarks = none;
    reviewed_at = none;
  }
  modify (add_extension request)
  report (
      history id deadline_extension_requested (some actor.id) (some actor.position_id)
      ∷ audit "TASK_DEADLINE_EXTENSION_REQUESTED" id actor.id
      ∷ notify extension_requested task.assigning_position_id id
      ∷ [])
  pure request

-- The two decisions that the request admits.
pub data Decision : Type 0 where
  approve deny : Decision

abbrev pub decided : Decision → ExtensionStatus
decided approve = approved
decided deny = denied

-- `length` of a text whose characters lie in the Unicode plane of one code unit each.
abbrev pub code_units : String → ℕ
code_units String.[] = 0
code_units (String.◌∷◌ c text) = suc (code_units text)

abbrev pub text_length : Option String → ℕ
text_length none = 0
text_length (some text) = code_units text

abbrev pub reviewed :
    (now : ℕ) → Decision → Option String → Actor → DeadlineExtension → DeadlineExtension
reviewed now decision remarks actor r = record r {
  status = decided decision;
  reviewed_by_position_id = some actor.position_id;
  reviewed_by_id = some actor.id;
  review_remarks = remarks;
  reviewed_at = some now;
}

abbrev pub extend_deadline : DeadlineExtension → Task → Task
extend_deadline r task = record task {
  deadline = some r.requested_deadline;
  is_overdue = false;
  overdue_at = none;
}

abbrev pub apply_decision :
    Decision → DeadlineExtension → Task → Actor → Action TaskStore (Unit {0})
apply_decision deny r task actor = skip
apply_decision approve r task actor = do
  modify (λ s. record s { tasks = save_row task_id (extend_deadline r task) s.tasks })
  report (history task.id deadline_extended (some actor.id) (some actor.position_id) ∷ [])

abbrev pub announce_decision :
    Decision → DeadlineExtension → ℕ → Actor → Action TaskStore (Unit {0})
announce_decision approve r id actor = report (
    audit "TASK_DEADLINE_EXTENSION_APPROVED" id actor.id
    ∷ notify extension_approved r.requester_position_id id
    ∷ [])
announce_decision deny r id actor = report (
    audit "TASK_DEADLINE_EXTENSION_DENIED" id actor.id
    ∷ notify extension_denied r.requester_position_id id
    ∷ [])

-- `dto.decision === DENIED && (!dto.remarks || dto.remarks.length < 10)`.
abbrev pub lacks_remarks : Decision → Option String → Bool
lacks_remarks approve remarks = false
lacks_remarks deny remarks = ltb (text_length remarks) 10

module _ (org : CommandChain) where
  unfoldable pub review_deadline_extension :
      (now id request : ℕ)
      → Decision
      → (remarks : Option String) → Actor
      → Action TaskStore DeadlineExtension
  unfolding cleared_task
  review_deadline_extension now id request decision remarks actor = do
    task ← cleared_task id actor
    throw_if
        (not (task.assigning_position_id == actor.position_id)
          && not (org.is_subordinate_to task.responsible_position_id actor.position_id))
        forbidden
    throw_if (lacks_remarks decision remarks) bad_request
    s ← get
    found ←
        require (find (λ r. r.id == request && r.task_id == id && is_open r.status) s.extensions)
          not_found
    let settled = reviewed now decision remarks actor found
    modify (λ t. record t { extensions = save_row extension_id settled t.extensions })
    apply_decision decision settled task actor
    announce_decision decision settled id actor
    pure settled

-- The statuses of `NOT IN` in the query of `markOverdueTasks`.
abbrev pub is_past_work : TaskStatus → Bool
is_past_work completed = true
is_past_work verified = true
is_past_work cancelled = true
is_past_work closed = true
is_past_work cannot_execute = true
is_past_work _ = false

abbrev pub is_before : Option ℕ → ℕ → Bool
is_before none today = false
is_before (some deadline) today = ltb deadline today

abbrev pub is_late : (today : ℕ) → Task → Bool
is_late today t = is_before t.deadline today && not t.is_overdue && not (is_past_work t.status)

abbrev pub flag_overdue : (now : ℕ) → Task → Task
flag_overdue now t = record t { is_overdue = true; overdue_at = some now }

-- The body of the loop, over the rows as the query returned them.
abbrev pub overdue_round : (now : ℕ) → Task → Action TaskStore (Unit {0})
overdue_round now t = do
  modify (λ s. record s { tasks = save_row task_id (flag_overdue now t) s.tasks })
  report (
      history t.id marked_overdue none none
      ∷ overdue t.id t.responsible_position_id t.assigning_position_id t.deadline
      ∷ [])

unfoldable pub mark_overdue_tasks : (today now : ℕ) → Action TaskStore ℕ
mark_overdue_tasks today now = do
  s ← get
  for_each (overdue_round now) (select (is_late today) s.tasks)
  pure (length (select (is_late today) s.tasks))
