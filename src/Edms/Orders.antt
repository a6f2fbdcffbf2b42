-- ===== src/Edms/Orders.antt =====
-- What holds of the assignments of executors and of their requests for a later deadline.
use coes_platform.Base.{
  ℕ, ◌≤◌, String, true, false, not, ◌&&◌, ◌||◌, Option, some, List, [], ◌∷◌, ◌==◌, any, count, All,
  All-find, All-save_row, is_some, arith, ◌≡◌, refl, subst, inl, inr, Bool-cases, Option-cases,
  find-passes,
}
use coes_platform.Edms.Executors.{
  ExecutorAssignment, ExtensionRequest, ResolutionStore, executor_id, assignment_of, is_completed,
  is_primary, accepted, in_progress,
}
use coes_platform.Edms.Execution.{
  accept_assignment, mark_assignment_in_progress, file_completion_report, finished, link_task,
}
use coes_platform.Edms.Extensions.{ExtensionDto, request_extension, is_open_for, is_pending}

-- A completed assignment says when, and a sub-assignment is not a primary one, so that nothing can
-- be assigned under it.
abbrev pub IsSettled : ExecutorAssignment → Type 0
IsSettled a =
    ((not (is_completed a.status) || is_some a.completed_at)
      && (not (is_some a.parent_assignment_id) || not (is_primary a.executor_role)))
    ≡ true

-- A settled request says who settled it and when.
abbrev pub IsProper : ExtensionRequest → Type 0
IsProper r = (is_pending r.status || (is_some r.reviewed_by_id && is_some r.reviewed_at)) ≡ true

abbrev pub IsOrderly : ResolutionStore → Type 0
IsOrderly s =
    All IsSettled s.assignments
    × (All IsProper s.extensions × ((k : ℕ) → count (is_open_for k) s.extensions ≤ 1))

pub accept_assignment-IsOrderly :
    (k position : ℕ) (s : ResolutionStore)
    → IsOrderly s
    → IsOrderly (accept_assignment k position s).1
unfolding accept_assignment
accept_assignment-IsOrderly k position s h = elim (Option-cases (assignment_of k s)) [
  | inl missing ↦ rw missing h
  | inr (a, found) ↦
      let own = All-find IsSettled _ s.assignments h.0 found in
      let saved =
        All-save_row IsSettled executor_id (record a { status = accepted }) s.assignments
          (ground arith) h.0 in
      ground arith
]

pub mark_assignment_in_progress-IsOrderly :
    (k position : ℕ) (s : ResolutionStore)
    → IsOrderly s
    → IsOrderly (mark_assignment_in_progress k position s).1
unfolding mark_assignment_in_progress
mark_assignment_in_progress-IsOrderly k position s h = elim (Option-cases (assignment_of k s)) [
  | inl missing ↦ rw missing h
  | inr (a, found) ↦
      let own = All-find IsSettled _ s.assignments h.0 found in
      let saved =
        All-save_row IsSettled executor_id (record a { status = in_progress }) s.assignments
          (ground arith) h.0 in
      ground arith
]

pub file_completion_report-IsOrderly :
    (now k : ℕ) (report : String) (position : ℕ) (s : ResolutionStore)
    → IsOrderly s
    → IsOrderly (file_completion_report now k report position s).1
unfolding file_completion_report
file_completion_report-IsOrderly now k report position s h =
    elim (Option-cases (assignment_of k s)) [
      | inl missing ↦ rw missing h
      | inr (a, found) ↦
          let own = All-find IsSettled _ s.assignments h.0 found in
          let saved =
            All-save_row IsSettled executor_id (finished now (some report) a) s.assignments
              (ground arith) h.0 in
          ground arith
    ]

pub link_task-IsOrderly :
    (k task : ℕ) (s : ResolutionStore) → IsOrderly s → IsOrderly (link_task k task s).1
unfolding link_task
link_task-IsOrderly k task s h = elim (Option-cases (assignment_of k s)) [
  | inl missing ↦ rw missing h
  | inr (a, found) ↦
      let own = All-find IsSettled _ s.assignments h.0 found in
      let saved =
        All-save_row IsSettled executor_id (record a { linked_task_id = some task }) s.assignments
          own h.0 in
      ground arith
]

count-none :
    (k : ℕ) (xs : List ExtensionRequest)
    → any (is_open_for k) xs ≡ false
    → count (is_open_for k) xs ≡ 0
count-none k [] h = refl
count-none k (x ∷ xs) h = let rest = count-none k xs in ground arith

module _ (new_date to_day : String → Option ℕ) where
  request_extension-one_open :
      (new_id k : ℕ) (dto : ExtensionDto) (actor position other : ℕ) (s : ResolutionStore)
      → count (is_open_for other) s.extensions ≤ 1
      → count
          (is_open_for other)
          (request_extension new_date to_day new_id k dto actor position s).1.extensions
        ≤ 1
  unfolding request_extension
  request_extension-one_open new_id k dto actor position other s h =
      elim (Option-cases (assignment_of k s)) [
        | inl missing ↦ rw missing h
        | inr (a, found) ↦
            let own = find-passes (λ x. x.id == k) s.assignments found in
            elim (Bool-cases (a.id == other)) [
              | inr away ↦ ground arith
              | inl t ↦
                  let same : k ≡ other = ground arith in
                  let none_open : any (is_open_for k) s.extensions ≡ false
                      → count (is_open_for other) s.extensions ≡ 0 =
                    λ free.
                      subst (λ j. count (is_open_for j) s.extensions ≡ 0) same
                        (count-none k s.extensions free) in
                  ground arith
            ]
      ]

  pub request_extension-IsOrderly :
      (new_id k : ℕ) (dto : ExtensionDto) (actor position : ℕ) (s : ResolutionStore)
      → IsOrderly s
      → IsOrderly (request_extension new_date to_day new_id k dto actor position s).1
  unfolding request_extension
  request_extension-IsOrderly new_id k dto actor position s h = (
    ground arith,
    (
      ground arith,
      λ other. request_extension-one_open new_id k dto actor position other s (h.1.1 other),
    ),
  )
