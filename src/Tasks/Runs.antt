-- ===== src/Tasks/Runs.antt =====
-- Any sequence of requests to the task service, each carried out or refused.
use coes_platform.Base.{ℕ, ◌≤◌, String, Bool, Option, List, [], ◌∷◌, ◌≡◌, All, subst, sym, arith}
use coes_platform.Org.Port.{CommandChain}
use coes_platform.Tasks.State.{Task, TaskStore, Actor}
use coes_platform.Tasks.Checks.{cleared_task}
use coes_platform.Tasks.Create.{CreateTaskDto, create_task}
use coes_platform.Tasks.Transition.{TransitionDto, transition_status}
use coes_platform.Tasks.Edit.{
  UpdateTaskDto, update_task, update_progress, add_comment, add_attachment, remove_attachment,
}
use coes_platform.Tasks.Executors.{AddExecutorDto, add_executor, remove_executor, reassign_task}
use coes_platform.Tasks.Extensions.{
  Decision, request_deadline_extension, review_deadline_extension, mark_overdue_tasks,
}
use coes_platform.Tasks.Checks.{create_assignment_record, assert_assignment_authority}
use coes_platform.Tasks.Invariant.{
  AllValid, transition_status-AllValid, update_task-AllValid, review_deadline_extension-AllValid,
  reassign_task-AllValid, update_progress-AllValid, mark_overdue_tasks-AllValid,
}
use coes_platform.Tasks.Valid.{IsValid}
use coes_platform.Tasks.Creation.{create_task-AllValid}

-- What is asked of a task, with the time at which it is served where it matters.
pub data TaskRequest : Type 0 where
  update : UpdateTaskDto → TaskRequest
  transition : (now : ℕ) → TransitionDto → TaskRequest
  progress : (percent : ℕ) → Option String → TaskRequest
  executor : AddExecutorDto → TaskRequest
  removal : (now assignment : ℕ) → Option String → TaskRequest
  comment : String → Option Bool → TaskRequest
  attachment : (file : ℕ) → Option ℕ → TaskRequest
  detachment : (now attachment : ℕ) → TaskRequest
  reassignment : (now position : ℕ) → String → TaskRequest
  extension : (deadline : ℕ) → String → TaskRequest
  decision : (now request : ℕ) → Decision → Option String → TaskRequest

-- The requests that write.
pub data Request : Type 0 where
  creation : CreateTaskDto → Actor → Request
  on_task : (id : ℕ) → Actor → TaskRequest → Request
  detection : (today now : ℕ) → Request

module _ (org : CommandChain) where
  -- The store after a request on a task.
  unfoldable pub serve_task : (id : ℕ) → Actor → TaskRequest → TaskStore → TaskStore
  serve_task id actor (update dto) s = (update_task org id dto actor s).1
  serve_task id actor (transition now dto) s = (transition_status org now id dto actor s).1
  serve_task id actor (progress percent remark) s = (update_progress id percent remark actor s).1
  serve_task id actor (executor dto) s = (add_executor org id dto actor s).1
  serve_task id actor (removal now k reason) s = (remove_executor now id k reason actor s).1
  serve_task id actor (comment body internal) s = (add_comment org id body internal actor s).1
  serve_task id actor (attachment file level) s = (add_attachment org id file level actor s).1
  serve_task id actor (detachment now k) s = (remove_attachment org now id k actor s).1
  serve_task id actor (reassignment now k reason) s = (reassign_task org now id k reason actor s).1
  serve_task id actor (extension day reason) s =
      (request_deadline_extension id day reason actor s).1
  serve_task id actor (decision now k verdict remarks) s =
      (review_deadline_extension org now id k verdict remarks actor s).1

  serve : Request → TaskStore → TaskStore
  serve (creation dto actor) s = (create_task org dto actor s).1
  serve (on_task id actor q) s = serve_task id actor q s
  serve (detection today now) s = (mark_overdue_tasks today now s).1

  pub serve_all : List Request → TaskStore → TaskStore
  unfolding serve
  serve_all [] s = s
  serve_all (r ∷ rs) s = serve_all rs (serve r s)

  add_executor-tasks :
      (id : ℕ) (dto : AddExecutorDto) (actor : Actor) (s : TaskStore)
      → (add_executor org id dto actor s).1.tasks ≡ s.tasks
  unfolding add_executor cleared_task create_assignment_record assert_assignment_authority
  add_executor-tasks id dto actor s = ground arith

  remove_executor-tasks :
      (now id k : ℕ) (reason : Option String) (actor : Actor) (s : TaskStore)
      → (remove_executor now id k reason actor s).1.tasks ≡ s.tasks
  unfolding remove_executor cleared_task
  remove_executor-tasks now id k reason actor s = ground arith

  add_comment-tasks :
      (id : ℕ) (body : String) (internal : Option Bool) (actor : Actor) (s : TaskStore)
      → (add_comment org id body internal actor s).1.tasks ≡ s.tasks
  unfolding add_comment cleared_task
  add_comment-tasks id body internal actor s = ground arith

  add_attachment-tasks :
      (id file : ℕ) (level : Option ℕ) (actor : Actor) (s : TaskStore)
      → (add_attachment org id file level actor s).1.tasks ≡ s.tasks
  unfolding add_attachment cleared_task
  add_attachment-tasks id file level actor s = ground arith

  remove_attachment-tasks :
      (now id k : ℕ) (actor : Actor) (s : TaskStore)
      → (remove_attachment org now id k actor s).1.tasks ≡ s.tasks
  unfolding remove_attachment cleared_task
  remove_attachment-tasks now id k actor s = ground arith

  request_extension-tasks :
      (id day : ℕ) (reason : String) (actor : Actor) (s : TaskStore)
      → (request_deadline_extension id day reason actor s).1.tasks ≡ s.tasks
  unfolding request_deadline_extension cleared_task
  request_extension-tasks id day reason actor s = ground arith

-- What the validation of the request bodies has checked: a progress is a percentage.
abbrev IsPercentage : TaskRequest → Type 0
IsPercentage (progress percent remark) = percent ≤ 100
IsPercentage _ = Unit

abbrev pub IsLegal : Request → Type 0
IsLegal (on_task id actor q) = IsPercentage q
IsLegal _ = Unit

same_tasks : (ts us : List Task) → us ≡ ts → All IsValid ts → All IsValid us
same_tasks ts us same h = subst (All IsValid) (sym same) h

module _ (org : CommandChain) where
  serve_task-AllValid :
      (id : ℕ) (actor : Actor) (q : TaskRequest) (s : TaskStore)
      → IsPercentage q
      → AllValid s
      → AllValid (serve_task org id actor q s)
  unfolding serve_task
  serve_task-AllValid id actor (update dto) s ok h = update_task-AllValid org id dto actor s h
  serve_task-AllValid id actor (transition now dto) s ok h =
      transition_status-AllValid org now id dto actor s h
  serve_task-AllValid id actor (progress percent remark) s ok h =
      update_progress-AllValid id percent remark actor s ok h
  serve_task-AllValid id actor (executor dto) s ok h =
      same_tasks s.tasks _ (add_executor-tasks org id dto actor s) h
  serve_task-AllValid id actor (removal now k reason) s ok h =
      same_tasks s.tasks _ (remove_executor-tasks org now id k reason actor s) h
  serve_task-AllValid id actor (comment body internal) s ok h =
      same_tasks s.tasks _ (add_comment-tasks org id body internal actor s) h
  serve_task-AllValid id actor (attachment file level) s ok h =
      same_tasks s.tasks _ (add_attachment-tasks org id file level actor s) h
  serve_task-AllValid id actor (detachment now k) s ok h =
      same_tasks s.tasks _ (remove_attachment-tasks org now id k actor s) h
  serve_task-AllValid id actor (reassignment now k reason) s ok h =
      reassign_task-AllValid org now id k reason actor s h
  serve_task-AllValid id actor (extension day reason) s ok h =
      same_tasks s.tasks _ (request_extension-tasks org id day reason actor s) h
  serve_task-AllValid id actor (decision now k verdict remarks) s ok h =
      review_deadline_extension-AllValid org now id k verdict remarks actor s h

  serve-AllValid : (r : Request) (s : TaskStore) → IsLegal r → AllValid s → AllValid (serve org r s)
  unfolding serve
  serve-AllValid (creation dto actor) s ok h = create_task-AllValid org dto actor s h
  serve-AllValid (on_task id actor q) s ok h = serve_task-AllValid id actor q s ok h
  serve-AllValid (detection today now) s ok h = mark_overdue_tasks-AllValid today now s h

  -- Whatever requests are served, and whether each is carried out, refused or fails half-way: if
  -- every report of progress is a percentage, each task stays valid. Its depth is three at most and
  -- zero without a parent, its progress is a percentage, and the report, times and reasons that its
  -- status calls for are there.
  pub serve_all-AllValid :
      (rs : List Request) (s : TaskStore)
      → All IsLegal rs
      → AllValid s
      → AllValid (serve_all org rs s)
  unfolding serve_all
  serve_all-AllValid [] s ok h = h
  serve_all-AllValid (r ∷ rs) s ok h =
      serve_all-AllValid rs (serve org r s) ok.1 (serve-AllValid r s ok.0 h)
