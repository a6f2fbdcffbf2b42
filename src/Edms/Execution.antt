-- ===== src/Edms/Execution.antt =====
-- resolution.service.ts: how an executor accepts, carries out and reports his assignment.
use coes_platform.Base.{
  ℕ, String, Bool, true, false, not, ◌&&◌, Option, some, List, [], ◌∷◌, ◌==◌, all, select, find,
  is_some, is_id,
}
use coes_platform.Base.Action.{
  Action, not_found, bad_request, forbidden, get, pure, require, throw_if, when, ◌>>=◌, ◌>>◌,
}
use coes_platform.Edms.Status.{is_closed_to_work}
use coes_platform.Edms.Executors.{
  accepted, in_progress, completed, ExecutorAssignment, completed_history, completed_audit,
  accepted_history, accepted_audit, in_progress_history, all_complete, ResolutionStore, tell,
  assignment_of, save_assignment, is_assigned, is_accepted, is_completed, is_cancelled, is_primary,
  is_ended,
}

unfoldable pub accept_assignment : ℕ → ℕ → Action ResolutionStore ExecutorAssignment
accept_assignment k position = do
  s ← get
  a ← require (assignment_of k s) not_found
  throw_if (not (a.position_id == position)) forbidden
  throw_if (not (is_assigned a.status)) bad_request
  let saved = record a { status = accepted }
  save_assignment saved
  tell (accepted_history k ∷ accepted_audit k ∷ [])
  pure saved

unfoldable pub mark_assignment_in_progress : ℕ → ℕ → Action ResolutionStore ExecutorAssignment
mark_assignment_in_progress k position = do
  s ← get
  a ← require (assignment_of k s) not_found
  throw_if (not (a.position_id == position)) forbidden
  throw_if (not (is_accepted a.status)) bad_request
  let saved = record a { status = in_progress }
  save_assignment saved
  tell (in_progress_history k ∷ [])
  pure saved

-- checkAllAssignmentsComplete: whether the primary assignments that are not cancelled are all
-- completed, and there is one.
abbrev pub active_primaries : ℕ → List ExecutorAssignment → List ExecutorAssignment
active_primaries document assignments =
    select (λ a. not (is_cancelled a.status))
      (select (λ a. a.document_id == document && is_primary a.executor_role) assignments)

abbrev some_of : List ExecutorAssignment → Bool
some_of [] = false
some_of (a ∷ rest) = true

abbrev pub is_all_complete : ℕ → List ExecutorAssignment → Bool
is_all_complete document assignments =
    all (λ a. is_completed a.status) (active_primaries document assignments)
    && some_of (active_primaries document assignments)

abbrev pub check_all_assignments_complete : ℕ → Action ResolutionStore (Unit {0})
check_all_assignments_complete document = do
  s ← get
  when (is_all_complete document s.assignments) (tell (all_complete document ∷ []))

abbrev pub finished : ℕ → Option String → ExecutorAssignment → ExecutorAssignment
finished now report a = record a {
  completion_report = report;
  status = completed;
  completed_at = some now;
}

unfoldable pub file_completion_report :
    ℕ → ℕ → String → ℕ → Action ResolutionStore ExecutorAssignment
file_completion_report now k report position = do
  s ← get
  a ← require (assignment_of k s) not_found
  throw_if (not (a.position_id == position)) forbidden
  throw_if (is_ended a.status) bad_request
  d ← require (find (λ d. d.id == a.document_id) s.documents) not_found
  throw_if (is_closed_to_work d.status) bad_request
  let saved = finished now (some report) a
  save_assignment saved
  tell (completed_history k ∷ completed_audit k ∷ [])
  check_all_assignments_complete a.document_id
  pure saved

unfoldable pub link_task : ℕ → ℕ → Action ResolutionStore (Unit {0})
link_task k task = do
  s ← get
  a ← require (assignment_of k s) not_found
  throw_if (is_some a.linked_task_id && not (is_id a.linked_task_id task)) bad_request
  when (not (is_id a.linked_task_id task))
      (save_assignment (record a { linked_task_id = some task }))
