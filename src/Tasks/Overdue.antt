-- ===== src/Tasks/Overdue.antt =====
-- `markOverdueTasks` over the whole table.
use coes_platform.Base.{
  ℕ, false, List, [], ◌∷◌, ◌≡◌, refl, ◌∙◌, ap, length, select, save_all, save_all-select,
  update_where, select-update_where, HasIds, arith,
}
use coes_platform.Base.Action.{return, for_each}
use coes_platform.Tasks.State.{Task, TaskStore, task_id}
use coes_platform.Tasks.Extensions.{is_late, flag_overdue, overdue_round, mark_overdue_tasks}

loop-tasks :
    (now : ℕ) (late : List Task) (s : TaskStore)
    → (for_each (overdue_round now) late s).1.tasks
      ≡ save_all task_id (flag_overdue now) late s.tasks
loop-tasks now [] s = refl
loop-tasks now (t ∷ late) s = loop-tasks now late (overdue_round now t s).1

loop-returns :
    (now : ℕ) (late : List Task) (s : TaskStore)
    → (for_each (overdue_round now) late s).0 ≡ return tt
loop-returns now [] s = refl
loop-returns now (t ∷ late) s = loop-returns now late (overdue_round now t s).1

-- In a table with distinct ids, the detection flags every task that is past its deadline, is not
-- flagged yet and is not completed, verified, cancelled, closed or declared impossible (drafts are
-- flagged too), and changes no other row. It returns the number of the tasks that it flagged.
pub mark_overdue_tasks_lem :
    (today now : ℕ) (s : TaskStore)
    → HasIds task_id s.tasks
    → ((mark_overdue_tasks today now s).0 ≡ return (length (select (is_late today) s.tasks)))
      × ((mark_overdue_tasks today now s).1.tasks
          ≡ update_where task_id (is_late today) (flag_overdue now) s.tasks)
unfolding mark_overdue_tasks
mark_overdue_tasks_lem today now s ids =
    let late = select (is_late today) s.tasks in
    let returns = loop-returns now late s in
    let tasks =
      loop-tasks now late s
      ∙ save_all-select task_id (flag_overdue now) (λ t. refl) (is_late today) s.tasks ids in
    (ground arith, ground arith)

flagged-not_late : (today now : ℕ) (t : Task) → is_late today (flag_overdue now t) ≡ false
flagged-not_late today now t = ground arith

marks-count :
    (today now : ℕ) (s : TaskStore)
    → (mark_overdue_tasks today now s).0 ≡ return (length (select (is_late today) s.tasks))
unfolding mark_overdue_tasks
marks-count today now s =
    let returns = loop-returns now (select (is_late today) s.tasks) s in ground arith

-- In a table with distinct ids, a second detection on the same day finds no task.
pub mark_overdue_tasks-twice :
    (today now later : ℕ) (s : TaskStore)
    → HasIds task_id s.tasks
    → (mark_overdue_tasks today later (mark_overdue_tasks today now s).1).0 ≡ return 0
mark_overdue_tasks-twice today now later s ids =
    let after = (mark_overdue_tasks today now s).1 in
    marks-count today later after
    ∙ ap (λ ts. return (length (select (is_late today) ts)))
        ((mark_overdue_tasks_lem today now s ids).1)
    ∙ ap (λ ts. return (length ts))
        (select-update_where task_id (flag_overdue now) (λ t. refl) (is_late today)
          (flagged-not_late today now) s.tasks)
