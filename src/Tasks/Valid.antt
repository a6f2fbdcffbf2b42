-- ===== src/Tasks/Valid.antt =====
-- What holds of every row of the task table between two requests.
use coes_platform.Base.{
  ℕ, ◌≤◌, String, Bool, true, false, Option, none, ◌≡◌, is_blank, is_some, arith,
}
use coes_platform.Tasks.State.{
  Task, TaskType, DeadlineExtension, TaskStatus, in_progress, on_hold, completed, verified,
  returned, cannot_execute, cancelled, Actor,
}
use coes_platform.Tasks.Status.{may_go}
use coes_platform.Tasks.Create.{CreateTaskDto, new_task, max_subtask_depth}
use coes_platform.Tasks.Transition.{TransitionDto, apply_status, lacks_field}
use coes_platform.Tasks.Edit.{UpdateTaskDto, apply_update, apply_progress}
use coes_platform.Tasks.Extensions.{extend_deadline, flag_overdue}

-- The states in which the work has been reported as done.
abbrev pub is_delivered : TaskStatus → Bool
is_delivered completed = true
is_delivered verified = true
is_delivered returned = true
is_delivered _ = false

pub record IsValid (t : Task) : Type 0 where
  pub shallow : t.depth ≤ max_subtask_depth
  pub percent : t.progress_percent ≤ 100
  pub root : t.parent_task_id ≡ none → t.depth ≡ 0
  pub reported : is_delivered t.status ≡ true → is_blank t.completion_report ≡ false
  pub finished : is_delivered t.status ≡ true → is_some t.completed_at ≡ true
  pub held : t.status ≡ on_hold → is_blank t.hold_reason ≡ false
  pub working : t.status ≡ in_progress → is_blank t.hold_reason ≡ true
  pub dropped : t.status ≡ cancelled → is_blank t.cancel_reason ≡ false
  pub dropped_at : t.status ≡ cancelled → is_some t.cancelled_at ≡ true
  pub unable : t.status ≡ cannot_execute → is_blank t.cannot_execute_reason ≡ false
  pub late_since : t.is_overdue ≡ true → is_some t.overdue_at ≡ true

pub apply_status-IsValid :
    (dto : TransitionDto) (now : ℕ) (t : Task) (target : TaskStatus)
    → IsValid t
    → may_go t.status target ≡ true
    → lacks_field dto target ≡ false
    → IsValid (apply_status dto now t target)
unfolding may_go
apply_status-IsValid dto now t completed v go given = ground arith
apply_status-IsValid dto now t _ v go given = ground arith

pub apply_update-IsValid :
    (dto : UpdateTaskDto) (t : Task) → IsValid t → IsValid (apply_update dto t)
apply_update-IsValid dto t v = ground arith

pub apply_progress-IsValid :
    (percent : ℕ) (remark : Option String) (t : Task)
    → percent ≤ 100
    → IsValid t
    → IsValid (apply_progress percent remark t)
apply_progress-IsValid percent remark t h v = ground arith

pub extend_deadline-IsValid :
    (r : DeadlineExtension) (t : Task) → IsValid t → IsValid (extend_deadline r t)
extend_deadline-IsValid r t v = ground arith

pub flag_overdue-IsValid : (now : ℕ) (t : Task) → IsValid t → IsValid (flag_overdue now t)
flag_overdue-IsValid now t v = ground arith

pub new_task-IsValid :
    (new_id depth : ℕ) (dto : CreateTaskDto) (type : TaskType) (actor : Actor)
    → depth ≤ max_subtask_depth
    → (dto.parent_task_id ≡ none → depth ≡ 0)
    → IsValid (new_task new_id depth dto type actor)
new_task-IsValid new_id depth dto type actor h r = ground arith
