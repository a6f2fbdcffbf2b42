-- ===== src/Tasks/Invariant.antt =====
-- Every request keeps every row of the task table valid, whether it is carried out or refused.
use coes_platform.Base.{
  ℕ, ◌≤◌, String, ◌&&◌, Option, some, ◌≡◌, ◌==◌, Option-cases, find, select, arith, All, All-find,
  All-save_row, All-select, inl, inr,
}
use coes_platform.Base.Action.{Result, return, raise, for_each_inv}
use coes_platform.Org.Port.{CommandChain}
use coes_platform.Tasks.State.{Task, Actor, TaskStore, task_of, task_id, is_open}
use coes_platform.Tasks.Checks.{create_assignment_record}
use coes_platform.Tasks.Transition.{TransitionDto, transition_status}
use coes_platform.Tasks.Edit.{
  UpdateTaskDto, apply_update, update_task, apply_progress, update_progress,
}
use coes_platform.Tasks.Extensions.{
  Decision, extend_deadline, flag_overdue, overdue_round, is_late, review_deadline_extension,
  mark_overdue_tasks, reviewed,
}
use coes_platform.Tasks.Executors.{reassign_task, admit_reassignment}
use coes_platform.Tasks.Valid.{
  IsValid, apply_status-IsValid, apply_update-IsValid, apply_progress-IsValid,
  extend_deadline-IsValid, flag_overdue-IsValid,
}
use coes_platform.Tasks.Moves.{Outcome, transition_status-Outcome}

abbrev pub AllValid : TaskStore → Type 0
AllValid s = All IsValid s.tasks

task_of-IsValid :
    (id : ℕ) (s : TaskStore) {task : Task} → AllValid s → task_of id s ≡ some task → IsValid task
task_of-IsValid id s h found = All-find IsValid (λ t. t.id == id) s.tasks h found

module _ (org : CommandChain) where
  transition-AllValid :
      (now id : ℕ) (dto : TransitionDto) (actor : Actor) (s : TaskStore)
      (o : Result Task × TaskStore)
      → Outcome org id dto actor s now o
      → AllValid s
      → AllValid o.1
  transition-AllValid now id dto actor s (return moved, t) (task, ok, made, saved) h =
      let valid =
        apply_status-IsValid dto now task dto.target_status (task_of-IsValid id s h ok.found)
          ok.edge ok.fields in
      rw saved (All-save_row IsValid task_id moved s.tasks (rw made valid) h)
  transition-AllValid now id dto actor s (raise e, t) (same, refused) h = rw same h

  -- A transition keeps every task valid.
  pub transition_status-AllValid :
      (now id : ℕ) (dto : TransitionDto) (actor : Actor) (s : TaskStore)
      → AllValid s
      → AllValid (transition_status org now id dto actor s).1
  transition_status-AllValid now id dto actor s h =
      transition-AllValid now id dto actor s _ (transition_status-Outcome org id dto actor s now) h

  -- An update of a task keeps every task valid.
  pub update_task-AllValid :
      (id : ℕ) (dto : UpdateTaskDto) (actor : Actor) (s : TaskStore)
      → AllValid s
      → AllValid (update_task org id dto actor s).1
  unfolding update_task
  update_task-AllValid id dto actor s h = elim (Option-cases (task_of id s)) [
    | inl missing ↦ rw missing h
    | inr (task, found) ↦
        let valid = apply_update-IsValid dto task (task_of-IsValid id s h found) in
        let saved = All-save_row IsValid task_id (apply_update dto task) s.tasks valid h in
        ground arith
  ]

  -- A review of a deadline extension keeps every task valid.
  pub review_deadline_extension-AllValid :
      (now id request : ℕ) (decision : Decision) (remarks : Option String) (actor : Actor)
      (s : TaskStore)
      → AllValid s
      → AllValid (review_deadline_extension org now id request decision remarks actor s).1
  unfolding review_deadline_extension
  review_deadline_extension-AllValid now id request decision remarks actor s h =
      elim (Option-cases (task_of id s)) [
        | inl missing ↦ rw missing h
        | inr (task, found) ↦
            elim (Option-cases
              (find (λ r. r.id == request && r.task_id == id && is_open r.status) s.extensions)) [
                | inl none_open ↦ ground arith
                | inr (r, open_) ↦
                    let settled = reviewed now decision remarks actor r in
                    let valid =
                      extend_deadline-IsValid settled task (task_of-IsValid id s h found) in
                    let saved =
                      All-save_row IsValid task_id (extend_deadline settled task) s.tasks valid h in
                    ground arith
              ]
      ]

  -- A reassignment keeps every task valid, also where it fails half-way.
  pub reassign_task-AllValid :
      (now id new_position_id : ℕ) (reason : String) (actor : Actor) (s : TaskStore)
      → AllValid s
      → AllValid (reassign_task org now id new_position_id reason actor s).1
  unfolding reassign_task admit_reassignment create_assignment_record
  reassign_task-AllValid now id new_position_id reason actor s h =
      elim (Option-cases (task_of id s)) [
        | inl missing ↦ rw missing h
        | inr (task, found) ↦
            let moved : Task = record task { responsible_position_id = new_position_id } in
            let valid : IsValid moved = let v = task_of-IsValid id s h found in ground arith in
            let saved = All-save_row IsValid task_id moved s.tasks valid h in ground arith
      ]

-- A report of progress keeps every task valid, if it says a percentage.
pub update_progress-AllValid :
    (id percent : ℕ) (remark : Option String) (actor : Actor) (s : TaskStore)
    → percent ≤ 100
    → AllValid s
    → AllValid (update_progress id percent remark actor s).1
unfolding update_progress
update_progress-AllValid id percent remark actor s p h = elim (Option-cases (task_of id s)) [
  | inl missing ↦ rw missing h
  | inr (task, found) ↦
      let valid = apply_progress-IsValid percent remark task p (task_of-IsValid id s h found) in
      let saved =
        All-save_row IsValid task_id (apply_progress percent remark task) s.tasks valid h in
      ground arith
]

-- The overdue detection keeps every task valid.
pub mark_overdue_tasks-AllValid :
    (today now : ℕ) (s : TaskStore) → AllValid s → AllValid (mark_overdue_tasks today now s).1
unfolding mark_overdue_tasks
mark_overdue_tasks-AllValid today now s h =
    let late = select (is_late today) s.tasks in
    let looped =
      for_each_inv IsValid AllValid (overdue_round now)
        (λ t u v k.
          All-save_row IsValid task_id (flag_overdue now t) u.tasks (flag_overdue-IsValid now t v)
            k)
        late s (All-select IsValid (is_late today) s.tasks h) h in
    ground arith
