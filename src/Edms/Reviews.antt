-- ===== src/Edms/Reviews.antt =====
-- The reviews of requests, new assignments, and what the clock and the tasks do.
use coes_platform.Base.{
  ℕ, ◌≤◌, String, false, not, Option, some, ◌∷◌, ◌==◌, find, all, map, select, count, save_row, All,
  All-find, All-save_row, All-update, every, is_id, count-save_row, if◌then◌else◌, arith, ◌≡◌, refl,
  inl, inr, Option-cases,
}
use coes_platform.Base.Action.{
  for_each, and_then-keeps, for_each_inv, guard-keeps, bad_request, forbidden,
}
use coes_platform.Edms.Status.{is_closed_to_work}
use coes_platform.Org.Port.{CommandChain}
use coes_platform.Edms.Executors.{
  ExtensionRequest, ResolutionStore, approved, denied, executor_id, assignment_of,
}
use coes_platform.Edms.Execution.{finished}
use coes_platform.Edms.Issuing.{
  IssueResolutionDto, SubAssignmentDto, issue_resolution, visible_document, create_executor,
  create_sub_assignment, create_resolution, new_resolution, has_none, has_authority,
}
use coes_platform.Edms.Extensions.{
  reviewable, approve_extension, deny_extension, is_open_for, is_pending, reviewed_as, extension_id,
}
use coes_platform.Edms.Sync.{
  TaskCompleted, mark_overdue_assignments, on_document_task_completed, is_overdue_now, is_among,
  flagged, tell_overdue,
}
use coes_platform.Edms.Orders.{IsSettled, IsProper, IsOrderly}

-- A settled request that is saved keeps the table in order.
save-reviewed :
    (r : ExtensionRequest) (s : ResolutionStore)
    → IsProper r
    → is_pending r.status ≡ false
    → IsOrderly s
    → All IsProper (save_row extension_id r s.extensions)
      × ((k : ℕ) → count (is_open_for k) (save_row extension_id r s.extensions) ≤ 1)
save-reviewed r s proper settled h = (
  All-save_row IsProper extension_id r s.extensions proper h.1.0,
  λ k.
      let fewer = count-save_row extension_id (is_open_for k) r s.extensions (ground arith) in
      let one = h.1.1 k in omega arith,
)

module _ (chain : CommandChain) where
  pub deny_extension-IsOrderly :
      (now k : ℕ) (remarks : String) (actor position : ℕ) (s : ResolutionStore)
      → IsOrderly s
      → IsOrderly (deny_extension chain now k remarks actor position s).1
  unfolding deny_extension reviewable
  deny_extension-IsOrderly now k remarks actor position s h =
      elim (Option-cases (find (λ r. r.id == k) s.extensions)) [
        | inl missing ↦ rw missing h
        | inr (r, found) ↦
            let proper = All-find IsProper _ s.extensions h.1.0 found in
            let saved =
              save-reviewed (reviewed_as denied now (some remarks) actor position r) s
                (ground arith) refl h in
            ground arith
      ]

  pub approve_extension-IsOrderly :
      (now k : ℕ) (remarks : Option String) (actor position : ℕ) (s : ResolutionStore)
      → IsOrderly s
      → IsOrderly (approve_extension chain now k remarks actor position s).1
  unfolding approve_extension reviewable
  approve_extension-IsOrderly now k remarks actor position s h =
      elim (Option-cases (find (λ r. r.id == k) s.extensions)) [
        | inl missing ↦ rw missing h
        | inr (r, found) ↦ elim (Option-cases (assignment_of r.assignment_id s)) [
          | inl no_assignment ↦ ground arith
          | inr (a, at) ↦
              let proper = All-find IsProper _ s.extensions h.1.0 found in
              let own = All-find IsSettled _ s.assignments h.0 at in
              let saved =
                save-reviewed (reviewed_as approved now remarks actor position r) s (ground arith)
                  refl h in
              let moved =
                All-save_row IsSettled executor_id
                  (record a { deadline = some r.requested_deadline }) s.assignments own h.0 in
              ground arith
        ]
      ]

  module _ (occupant : ℕ → Option ℕ) where
    pub create_sub_assignment-IsOrderly :
        (k : ℕ) (dto : SubAssignmentDto) (position : ℕ) (s : ResolutionStore)
        → IsOrderly s
        → IsOrderly (create_sub_assignment chain occupant k dto position s).1
    unfolding create_sub_assignment
    create_sub_assignment-IsOrderly k dto position s h = ground arith

    create_resolution-IsOrderly :
        (new_id document : ℕ) (dto : IssueResolutionDto) (actor position : ℕ) (s : ResolutionStore)
        → IsOrderly s
        → IsOrderly (create_resolution chain occupant new_id document dto actor position s).1
    create_resolution-IsOrderly new_id document dto actor position s h =
        let t : ResolutionStore = record s {
          resolutions = new_resolution new_id document dto actor position ∷ s.resolutions;
        } in
        let body = create_executor chain occupant new_id document dto.deadline in
        and_then-keeps IsOrderly (for_each body dto.executors t) _
          (for_each_inv (λ _. Unit {0}) IsOrderly body (λ e u v k. ((refl, k.0), k.1)) dto.executors
            t (every dto.executors) h)
          (λ u v k. k)

    visible_document-IsOrderly :
        (document actor position clearance : ℕ) (s : ResolutionStore)
        → IsOrderly s
        → IsOrderly (visible_document document actor position clearance s).1
    unfolding visible_document
    visible_document-IsOrderly document actor position clearance s h = ground arith

    pub issue_resolution-IsOrderly :
        (new_id document : ℕ) (dto : IssueResolutionDto) (actor position clearance : ℕ)
        (s : ResolutionStore)
        → IsOrderly s
        → IsOrderly
            (issue_resolution chain occupant new_id document dto actor position clearance s).1
    unfolding issue_resolution visible_document
    issue_resolution-IsOrderly new_id document dto actor position clearance s h =
        let create = create_resolution chain occupant new_id document dto actor position in
        and_then-keeps IsOrderly (visible_document document actor position clearance s) _
          (visible_document-IsOrderly document actor position clearance s h)
          (λ d t k. guard-keeps IsOrderly (is_closed_to_work d.status) bad_request _ t k (
            guard-keeps IsOrderly (has_none dto.executors) bad_request _ t k (
              guard-keeps IsOrderly
                (not (all (has_authority chain occupant position) dto.executors)) forbidden create t
                k (create_resolution-IsOrderly new_id document dto actor position t k))))

pub mark_overdue_assignments-IsOrderly :
    (today : ℕ) (s : ResolutionStore) → IsOrderly s → IsOrderly (mark_overdue_assignments today s).1
unfolding mark_overdue_assignments
mark_overdue_assignments-IsOrderly today s h =
    let late = select (is_overdue_now today) s.assignments in
    let t : ResolutionStore = record s {
      assignments = map (λ a. if is_among late a then flagged a else a) s.assignments;
    } in
    for_each_inv (λ _. Unit {0}) IsOrderly tell_overdue (λ a u v k. k) late t (every late)
      (All-update IsSettled (is_among late) flagged (λ a k. ground arith) s.assignments h.0, h.1)

pub on_document_task_completed-IsOrderly :
    (now : ℕ) (payload : TaskCompleted) (s : ResolutionStore)
    → IsOrderly s
    → IsOrderly (on_document_task_completed now payload s).1
unfolding on_document_task_completed
on_document_task_completed-IsOrderly now payload s h =
    elim (Option-cases (find (λ a. is_id a.linked_task_id payload.task_id) s.assignments)) [
      | inl missing ↦ rw missing h
      | inr (a, found) ↦
          let own = All-find IsSettled _ s.assignments h.0 found in
          let saved =
            All-save_row IsSettled executor_id (finished now payload.completion_report a)
              s.assignments (ground arith) h.0 in
          ground arith
    ]
