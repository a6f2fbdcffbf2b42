-- ===== src/Edms/Sync.antt =====
-- edms-scheduler.service.ts and edms-task-sync.listener.ts: what the clock and the tasks do to the
-- assignments. A deadline is a day number, and so is `today`.
use coes_platform.Base.{
  ℕ, String, Bool, true, false, not, ◌&&◌, Option, none, some, List, [], ◌∷◌, ◌==◌, any, select,
  ltb, leb, map, if◌then◌else◌, find, is_id,
}
use coes_platform.Base.Action.{Action, get, modify, when, ◌>>=◌, ◌>>◌, for_each, skip}
use coes_platform.Edms.State.{Document}
use coes_platform.Edms.Executors.{
  ExecutorStatus, assigned, accepted, in_progress, overdue, ExecutorAssignment, overdue_event,
  overdue_history, deadline_approaching, ResolutionStore, tell, save_assignment, is_ended,
}
use coes_platform.Edms.State.{DocumentStatus, in_workflow, document_id}
use coes_platform.Edms.Execution.{finished, is_all_complete}
use coes_platform.Edms.Status.{same_status}
use coes_platform.Edms.State

-- The statuses ASSIGNED, ACCEPTED and IN_PROGRESS.
abbrev pub is_under_way : ExecutorStatus → Bool
is_under_way assigned = true
is_under_way accepted = true
is_under_way in_progress = true
is_under_way _ = false

abbrev pub is_past : ℕ → Option ℕ → Bool
is_past today none = false
is_past today (some day) = ltb day today

abbrev pub is_overdue_now : ℕ → ExecutorAssignment → Bool
is_overdue_now today a = is_under_way a.status && is_past today a.deadline

abbrev pub flagged : ExecutorAssignment → ExecutorAssignment
flagged a = record a { status = overdue }

-- `update({ id: In(ids) }, …)`.
abbrev pub is_among : List ExecutorAssignment → ExecutorAssignment → Bool
is_among found a = any (λ b. b.id == a.id) found

abbrev pub tell_overdue : ExecutorAssignment → Action ResolutionStore (Unit {0})
tell_overdue a = tell (overdue_event a.id ∷ overdue_history a.id ∷ [])

unfoldable pub mark_overdue_assignments : ℕ → Action ResolutionStore (Unit {0})
mark_overdue_assignments today = do
  s ← get
  let late = select (is_overdue_now today) s.assignments
  modify (λ t. record t {
    assignments = map (λ a. if is_among late a then flagged a else a) t.assignments;
  })
  for_each tell_overdue late

abbrev is_within : ℕ → ℕ → Option ℕ → Bool
is_within today horizon none = false
is_within today horizon (some day) = leb today day && leb day horizon

abbrev pub approaching : ℕ → ℕ → ResolutionStore → List ExecutorAssignment
approaching today horizon s =
    select (λ a. is_under_way a.status && is_within today horizon a.deadline) s.assignments

abbrev pub warn : ExecutorAssignment → Action ResolutionStore (Unit {0})
warn a = tell (deadline_approaching a.id ∷ [])

unfoldable pub notify_approaching_deadlines : ℕ → ℕ → Action ResolutionStore (Unit {0})
notify_approaching_deadlines today horizon = do s ← get; for_each warn (approaching today horizon s)

pub record TaskCompleted : Type 0 where
  pub task_id : ℕ
  pub source_document_id : ℕ
  pub completion_report : Option String

abbrev pub complete_document : ℕ → Action ResolutionStore (Unit {0})
complete_document k = modify (λ s. record s {
  documents = map (λ d. if d.id == k then record d { status = State.completed } else d) s.documents;
})

-- The document must be in its workflow.
abbrev is_in_workflow : Option Document → Bool
is_in_workflow none = false
is_in_workflow (some d) = same_status d.status in_workflow

abbrev pub complete_linked :
    ℕ → TaskCompleted → ExecutorAssignment → Action ResolutionStore (Unit {0})
complete_linked now payload a = do
  save_assignment (finished now payload.completion_report a)
  s ← get
  when (is_all_complete payload.source_document_id s.assignments)
      (complete_document payload.source_document_id)

abbrev sync_found :
    ℕ → TaskCompleted → Option ExecutorAssignment → Action ResolutionStore (Unit {0})
sync_found now payload none s = skip s
sync_found now payload (some a) s =
    when
      (is_in_workflow (find (λ d. d.id == payload.source_document_id) s.documents)
        && not (is_ended a.status))
      (complete_linked now payload a) s

unfoldable pub on_document_task_completed : ℕ → TaskCompleted → Action ResolutionStore (Unit {0})
on_document_task_completed now payload = do
  s ← get
  sync_found now payload (find (λ a. is_id a.linked_task_id payload.task_id) s.assignments)
