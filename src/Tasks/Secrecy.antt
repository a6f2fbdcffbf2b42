-- ===== src/Tasks/Secrecy.antt =====
-- Clearance: who is not cleared for a task changes nothing by a request on it.
use coes_platform.Base.{ℕ, ◌<◌, some, ◌≡◌, refl, lt→ltb, arith}
use coes_platform.Base.Action.{raise, forbidden}
use coes_platform.Org.Port.{CommandChain}
use coes_platform.Tasks.State.{Task, TaskStore, Actor, task_of}
use coes_platform.Tasks.Checks.{assert_clearance, cleared_task}
use coes_platform.Tasks.Transition.{admit_transition, transition_status}
use coes_platform.Tasks.Edit.{
  update_task, update_progress, add_comment, add_attachment, remove_attachment,
}
use coes_platform.Tasks.Executors.{add_executor, remove_executor, admit_reassignment, reassign_task}
use coes_platform.Tasks.Extensions.{request_deadline_extension, review_deadline_extension}
use coes_platform.Tasks.Runs.{TaskRequest, serve_task}

module _ (org : CommandChain) (id : ℕ) (actor : Actor) (s : TaskStore) (task : Task) where
  refused :
      task_of id s ≡ some task
      → actor.clearance < task.classification
      → cleared_task id actor s ≡ (raise forbidden, s)
  unfolding cleared_task assert_clearance
  refused found low =
      let below = lt→ltb actor.clearance task.classification low in rw found (rw below refl)

  -- A request on an existing task by an actor whose clearance is below the task's classification
  -- leaves every table and the reports as they are, whatever is asked.
  pub serve_task-uncleared :
      (q : TaskRequest)
      → task_of id s ≡ some task
      → actor.clearance < task.classification
      → serve_task org id actor q s ≡ s
  unfolding serve_task update_task transition_status admit_transition update_progress add_executor
      remove_executor add_comment add_attachment remove_attachment admit_reassignment reassign_task
      request_deadline_extension review_deadline_extension
  serve_task-uncleared q found low = let no = refused found low in ground arith
