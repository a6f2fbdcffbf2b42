-- ===== src/Tasks/Edit.antt =====
-- `updateTask`, `updateProgress`, comments and attachments.
use coes_platform.Base.{
  ℕ, String, Bool, false, not, ◌&&◌, ◌||◌, Option, none, some, List, [], ◌∷◌, ◌==◌, is_blank,
  or_else, is_some, if◌then◌else◌, find, select, save_row,
}
use coes_platform.Base.Action.{
  Action, forbidden, bad_request, not_found, get, modify, pure, require, throw_if, ◌>>=◌, ◌>>◌,
}
use coes_platform.Org.Port.{CommandChain}
use coes_platform.Tasks.State.{
  Task, TaskPriority, TaskComment, TaskAttachment, TaskStore, Actor, task_id, fresh_id, report,
  history, audit, emitted, task_updated, progress_updated,
}
use coes_platform.Tasks.Status.{is_early_stage}
use coes_platform.Tasks.Checks.{
  cleared_task, is_task_participant, is_task_participant_or_supervisor,
}

-- A nullable column of a request: left out, set to null, or given.
pub data Patch (A : Type 0) : Type 0 where
  absent : Patch A
  null : Patch A
  given : A → Patch A

-- `if (dto.x !== undefined) task.x = dto.x ?? null`.
abbrev pub patch : {A : Type 0} → Patch A → Option A → Option A
patch absent old = old
patch null old = none
patch (given a) old = some a

pub record UpdateTaskDto : Type 0 where
  pub title : Option String
  pub description : Patch String
  pub priority : Option TaskPriority
  pub deadline : Patch ℕ
  pub classification : Option ℕ

-- `if (dto.title) task.title = dto.title`.
abbrev pub retitle : Option String → String → String
retitle none old = old
retitle (some String.[]) old = old
retitle (some (String.◌∷◌ c s)) old = String.◌∷◌ c s

abbrev pub apply_update : UpdateTaskDto → Task → Task
apply_update dto task = record task {
  title = retitle dto.title task.title;
  description = patch dto.description task.description;
  priority = or_else dto.priority task.priority;
  deadline = patch dto.deadline task.deadline;
  classification = or_else dto.classification task.classification;
}

module _ (org : CommandChain) where
  unfoldable pub update_task : ℕ → UpdateTaskDto → Actor → Action TaskStore Task
  unfolding cleared_task
  update_task id dto actor = do
    task ← cleared_task id actor
    throw_if
        (not (
          task.assigning_position_id == actor.position_id
          || org.is_subordinate_to task.responsible_position_id actor.position_id))
        forbidden
    throw_if
        (not (is_early_stage task.status) && (not (is_blank dto.title) || is_some dto.priority))
        bad_request
    let updated = apply_update dto task
    modify (λ s. record s { tasks = save_row task_id updated s.tasks })
    report (
        history task.id task_updated (some actor.id) (some actor.position_id)
        ∷ audit "TASK_UPDATED" task.id actor.id
        ∷ emitted "task.updated" task.id
        ∷ [])
    pure updated

  unfoldable pub add_comment : ℕ → String → Option Bool → Actor → Action TaskStore TaskComment
  unfolding cleared_task is_task_participant_or_supervisor
  add_comment id body is_internal actor = do
    task ← cleared_task id actor
    s ← get
    throw_if (not (is_task_participant_or_supervisor org actor task s)) forbidden
    new_id ← fresh_id
    let comment : TaskComment = record {
      id = new_id;
      task_id = id;
      author_id = actor.id;
      author_position_id = actor.position_id;
      body = body;
      is_internal = or_else is_internal false;
    }
    modify (λ t. record t { comments = comment ∷ t.comments })
    report (audit "TASK_COMMENT_ADDED" id actor.id ∷ [])
    pure comment

  -- The comments come in table order. None is ever deleted here.
  unfoldable pub get_comments :
      ℕ → (include_internal : Bool) → Actor → Action TaskStore (List TaskComment)
  unfolding cleared_task is_task_participant_or_supervisor
  get_comments id include_internal actor = do
    task ← cleared_task id actor
    s ← get
    throw_if (not (is_task_participant_or_supervisor org actor task s)) forbidden
    pure (select (λ c. c.task_id == id && (include_internal || not c.is_internal)) s.comments)

  unfoldable pub add_attachment :
      ℕ → (file_id : ℕ) → (classification : Option ℕ) → Actor → Action TaskStore TaskAttachment
  unfolding cleared_task is_task_participant_or_supervisor
  add_attachment id file_id classification actor = do
    task ← cleared_task id actor
    s ← get
    throw_if (not (is_task_participant_or_supervisor org actor task s)) forbidden
    new_id ← fresh_id
    let attachment : TaskAttachment = record {
      id = new_id;
      task_id = id;
      file_id = file_id;
      uploader_id = actor.id;
      uploader_position_id = actor.position_id;
      classification = or_else classification task.classification;
      removed_at = none;
    }
    modify (λ t. record t { attachments = attachment ∷ t.attachments })
    report (audit "TASK_ATTACHMENT_ADDED" id actor.id ∷ [])
    pure attachment

  abbrev pub attachment_id : TaskAttachment → ℕ
  attachment_id a = a.id

  unfoldable pub remove_attachment : (now id attachment : ℕ) → Actor → Action TaskStore (Unit {0})
  unfolding cleared_task is_task_participant_or_supervisor
  remove_attachment now id attachment actor = do
    task ← cleared_task id actor
    s ← get
    throw_if (not (is_task_participant_or_supervisor org actor task s)) forbidden
    found ←
        require
          (find (λ a. a.id == attachment && a.task_id == id && not (is_some a.removed_at))
            s.attachments)
          not_found
    let removed : TaskAttachment = record found { removed_at = some now }
    modify (λ t. record t { attachments = save_row attachment_id removed t.attachments })
    report (audit "TASK_ATTACHMENT_REMOVED" id actor.id ∷ [])

abbrev pub apply_progress : ℕ → Option String → Task → Task
apply_progress percent note task = record task {
  progress_percent = percent;
  progress_note = if is_some note then note else task.progress_note;
}

unfoldable pub update_progress :
    ℕ → (percent : ℕ) → (note : Option String) → Actor → Action TaskStore Task
unfolding cleared_task is_task_participant
update_progress id percent note actor = do
  task ← cleared_task id actor
  s ← get
  throw_if (not (is_task_participant id actor.position_id s)) forbidden
  let updated = apply_progress percent note task
  modify (λ t. record t { tasks = save_row task_id updated t.tasks })
  report (
      history id progress_updated (some actor.id) (some actor.position_id)
      ∷ audit "TASK_PROGRESS_UPDATED" id actor.id
      ∷ [])
  pure updated
