-- ===== src/Tasks/Status.antt =====
-- The state machine of a task: `TASK_TRANSITIONS` of task.entity.ts, and the sets of states that
-- the service names.
use coes_platform.Base.{Bool, true, false, List, [], ◌∷◌, any}
use coes_platform.Tasks.State.{
  TaskStatus, draft, assigned, accepted, in_progress, on_hold, completed, verified, returned,
  cannot_execute, cancelled, closed,
}

abbrev pub same_status : TaskStatus → TaskStatus → Bool
same_status draft draft = true
same_status assigned assigned = true
same_status accepted accepted = true
same_status in_progress in_progress = true
same_status on_hold on_hold = true
same_status completed completed = true
same_status verified verified = true
same_status returned returned = true
same_status cannot_execute cannot_execute = true
same_status cancelled cancelled = true
same_status closed closed = true
same_status _ _ = false

unfoldable pub task_transitions : TaskStatus → List TaskStatus
task_transitions draft = assigned ∷ cancelled ∷ []
task_transitions assigned = accepted ∷ in_progress ∷ cannot_execute ∷ cancelled ∷ []
task_transitions accepted = in_progress ∷ on_hold ∷ cannot_execute ∷ cancelled ∷ []
task_transitions in_progress = completed ∷ on_hold ∷ cannot_execute ∷ cancelled ∷ []
task_transitions on_hold = in_progress ∷ cancelled ∷ []
task_transitions completed = verified ∷ returned ∷ closed ∷ []
task_transitions verified = closed ∷ []
task_transitions returned = in_progress ∷ []
task_transitions cannot_execute = in_progress ∷ assigned ∷ cancelled ∷ []
task_transitions cancelled = closed ∷ []
task_transitions closed = []

-- `TASK_TRANSITIONS[from].includes(to)`.
unfoldable pub may_go : TaskStatus → TaskStatus → Bool
unfolding task_transitions
may_go from to = any (same_status to) (task_transitions from)

-- `terminalStatuses` of `propagateToParent`.
abbrev pub is_terminal : TaskStatus → Bool
is_terminal completed = true
is_terminal verified = true
is_terminal cancelled = true
is_terminal closed = true
is_terminal _ = false

abbrev pub is_blocking : TaskStatus → Bool
is_blocking on_hold = true
is_blocking cannot_execute = true
is_blocking _ = false

abbrev pub is_early_stage : TaskStatus → Bool
is_early_stage draft = true
is_early_stage assigned = true
is_early_stage _ = false
