-- ===== src/Edms/Proceedings.antt =====
-- Any sequence of requests to the resolution service, of rounds of the scheduler, and of tasks that
-- are completed.
use coes_platform.Base.{
  ℕ, String, true, Option, List, [], ◌∷◌, select, length, any, every, ◌≡◌, refl, inl, inr,
  Bool-cases,
}
use coes_platform.Base.Action.{return, raise, query_failed, for_each, and_then, for_each_inv}
use coes_platform.Org.Port.{CommandChain}
use coes_platform.Edms.State.{Document, DocumentStore}
use coes_platform.Edms.Executors.{ResolutionStore}
use coes_platform.Edms.Execution.{
  accept_assignment, mark_assignment_in_progress, file_completion_report, link_task,
}
use coes_platform.Edms.Issuing.{
  IssueResolutionDto, SubAssignmentDto, issue_resolution, create_sub_assignment,
}
use coes_platform.Edms.Extensions.{
  ExtensionDto, request_extension, approve_extension, deny_extension,
}
use coes_platform.Edms.Sync.{
  TaskCompleted, mark_overdue_assignments, notify_approaching_deadlines, on_document_task_completed,
  approaching, warn,
}
use coes_platform.Edms.Lifecycle.{auto_archive_completed_documents, is_to_archive, archive_round}
use coes_platform.Edms.Orders.{
  IsOrderly, accept_assignment-IsOrderly, mark_assignment_in_progress-IsOrderly,
  file_completion_report-IsOrderly, link_task-IsOrderly, request_extension-IsOrderly,
}
use coes_platform.Edms.Reviews.{
  deny_extension-IsOrderly, approve_extension-IsOrderly, create_sub_assignment-IsOrderly,
  issue_resolution-IsOrderly, mark_overdue_assignments-IsOrderly,
  on_document_task_completed-IsOrderly,
}

pub data Request : Type 0 where
  issue : (new_id document : ℕ) → IssueResolutionDto → (actor position clearance : ℕ) → Request
  accept begin : (assignment position : ℕ) → Request
  report : (now assignment : ℕ) → String → (position : ℕ) → Request
  distribute : (parent : ℕ) → SubAssignmentDto → (position : ℕ) → Request
  extend : (new_id assignment : ℕ) → ExtensionDto → (actor position : ℕ) → Request
  approve : (now extension : ℕ) → Option String → (actor position : ℕ) → Request
  deny : (now extension : ℕ) → String → (actor position : ℕ) → Request
  link : (assignment task : ℕ) → Request
  overdue_round : (today : ℕ) → Request
  warning_round : (today horizon : ℕ) → Request
  task_completed : (now : ℕ) → TaskCompleted → Request

module _ (chain : CommandChain) (occupant : ℕ → Option ℕ)
    (new_date to_day : String → Option ℕ) where
  unfoldable pub serve : Request → ResolutionStore → ResolutionStore
  serve (issue new_id document dto actor position clearance) s =
      (issue_resolution chain occupant new_id document dto actor position clearance s).1
  serve (accept k position) s = (accept_assignment k position s).1
  serve (begin k position) s = (mark_assignment_in_progress k position s).1
  serve (report now k text position) s = (file_completion_report now k text position s).1
  serve (distribute k dto position) s = (create_sub_assignment chain occupant k dto position s).1
  serve (extend new_id k dto actor position) s =
      (request_extension new_date to_day new_id k dto actor position s).1
  serve (approve now k remarks actor position) s =
      (approve_extension chain now k remarks actor position s).1
  serve (deny now k remarks actor position) s =
      (deny_extension chain now k remarks actor position s).1
  serve (link k task) s = (link_task k task s).1
  serve (overdue_round today) s = (mark_overdue_assignments today s).1
  serve (warning_round today horizon) s = (notify_approaching_deadlines today horizon s).1
  serve (task_completed now payload) s = (on_document_task_completed now payload s).1

  unfoldable pub serve_all : List Request → ResolutionStore → ResolutionStore
  unfolding serve
  serve_all [] s = s
  serve_all (r ∷ rs) s = serve_all rs (serve r s)

  serve-IsOrderly : (r : Request) (s : ResolutionStore) → IsOrderly s → IsOrderly (serve r s)
  unfolding serve notify_approaching_deadlines
  serve-IsOrderly (issue new_id document dto actor position clearance) s h =
      issue_resolution-IsOrderly chain occupant new_id document dto actor position clearance s h
  serve-IsOrderly (accept k position) s h = accept_assignment-IsOrderly k position s h
  serve-IsOrderly (begin k position) s h = mark_assignment_in_progress-IsOrderly k position s h
  serve-IsOrderly (report now k text position) s h =
      file_completion_report-IsOrderly now k text position s h
  serve-IsOrderly (distribute k dto position) s h =
      create_sub_assignment-IsOrderly chain occupant k dto position s h
  serve-IsOrderly (extend new_id k dto actor position) s h =
      request_extension-IsOrderly new_date to_day new_id k dto actor position s h
  serve-IsOrderly (approve now k remarks actor position) s h =
      approve_extension-IsOrderly chain now k remarks actor position s h
  serve-IsOrderly (deny now k remarks actor position) s h =
      deny_extension-IsOrderly chain now k remarks actor position s h
  serve-IsOrderly (link k task) s h = link_task-IsOrderly k task s h
  serve-IsOrderly (overdue_round today) s h = mark_overdue_assignments-IsOrderly today s h
  serve-IsOrderly (warning_round today horizon) s h =
      for_each_inv (λ _. Unit {0}) IsOrderly warn (λ a t u k. k) (approaching today horizon s) s
        (every (approaching today horizon s)) h
  serve-IsOrderly (task_completed now payload) s h =
      on_document_task_completed-IsOrderly now payload s h

  -- Whatever requests are served, in any order, carried out or refused, these stay true if they
  -- were: a completed assignment says when; a sub-assignment is no primary one; a request for a
  -- deadline that is settled says by whom and when; and no assignment has two pending requests.
  pub serve_all-IsOrderly :
      (rs : List Request) (s : ResolutionStore) → IsOrderly s → IsOrderly (serve_all rs s)
  unfolding serve_all
  serve_all-IsOrderly [] s h = h
  serve_all-IsOrderly (r ∷ rs) s h = serve_all-IsOrderly rs (serve r s) (serve-IsOrderly r s h)

-- One completed document that is old enough makes the whole round of automatic archiving fail with
-- a refused query, and no document is archived.
pub auto_archive_completed_documents-refused :
    (add_years : ℕ → ℕ → ℕ) (now cutoff : ℕ) (s : DocumentStore)
    → any (is_to_archive cutoff) s.documents ≡ true
    → auto_archive_completed_documents add_years now cutoff s ≡ (raise query_failed, s)
unfolding auto_archive_completed_documents
auto_archive_completed_documents-refused add_years now cutoff s h = refuse s.documents h
  where
    refuse :
        (ds : List Document)
        → any (is_to_archive cutoff) ds ≡ true
        → and_then
            (for_each (archive_round add_years now) (select (is_to_archive cutoff) ds) s)
            (λ u t. (return (length (select (is_to_archive cutoff) s.documents)), t))
          ≡ (raise query_failed, s)
    refuse [] h = cc
    refuse (d ∷ ds) h = elim (Bool-cases (is_to_archive cutoff d)) [
      | inl t ↦ rw t refl
      | inr f ↦ rw f (refuse ds (rw f at h))
    ]
