-- ===== src/Tasks/Creation.antt =====
-- `createTask`: which requests are admitted, and what a request leaves behind, also where the
-- staffing of the saved task fails.
use coes_platform.Base.{
  ℕ, suc, ◌+◌, ◌≤◌, true, ◌&&◌, Option, none, some, List, [], ◌∷◌, ◌≡◌, ◌∙◌, ap, refl, ◌==◌,
  Option-cases, find, arith, All, inl, inr, ◌⊎◌,
}
use coes_platform.Base.Action.{
  Action, and_then, pure, ◌>>=◌, Checks, Checks-bind, Result, return, raise, for_each,
}
use coes_platform.Org.Port.{CommandChain}
use coes_platform.Tasks.State.{
  Task, TaskType, Actor, TaskStore, task_of, task_id, AssignmentType, primary,
}
use coes_platform.Tasks.Checks.{create_assignment_record, assert_assignment_authority}
use coes_platform.Tasks.Create.{
  CreateTaskDto, CoExecutorDto, add_co_executor, accepted_co_executors, new_task, admit_task,
  staff_task, create_task, subtask_depth, max_subtask_depth,
}
use coes_platform.Tasks.Valid.{IsValid, new_task-IsValid}
use coes_platform.Tasks.Invariant.{AllValid}

-- The new task takes its place below its parent.
abbrev pub IsPlaced : TaskStore → TaskType → Option ℕ → Actor → ℕ → Type 0
IsPlaced s type none actor depth = depth ≡ 0
IsPlaced s type (some k) actor depth =
    (parent : Task) × (task_of k s ≡ some parent)
    × (type.supports_subtasks ≡ true)
    × (depth ≡ parent.depth + 1)
    × (depth ≤ max_subtask_depth)
    × ((parent.responsible_position_id ≡ actor.position_id)
        ⊎ (parent.assigning_position_id ≡ actor.position_id))

module _ (org : CommandChain) where
  -- The actor may give work to the position: it is his own, or below him in the chain of command.
  abbrev pub MayAssign : Actor → ℕ → Type 0
  MayAssign actor target =
      (actor.position_id ≡ target) ⊎ (org.is_subordinate_to target actor.position_id ≡ true)

  authority-Checks :
      (actor : Actor) (target : ℕ) (s : TaskStore)
      → Checks
          (λ _. MayAssign actor target)
          s
          (assert_assignment_authority org actor.position_id target s)
  unfolding assert_assignment_authority
  authority-Checks actor target s = ground arith

subtask_depth-Checks :
    (type : TaskType) (actor : Actor) (parent : Option ℕ) (s : TaskStore)
    → Checks (IsPlaced s type parent actor) s (subtask_depth type actor parent s)
subtask_depth-Checks type actor none s = (refl, refl)
subtask_depth-Checks type actor (some k) s = elim (Option-cases (task_of k s)) [
  | inl missing ↦ rw missing (refl, tt)
  | inr (parent, found) ↦ rw found (ground arith)
]

module _ (org : CommandChain) (dto : CreateTaskDto) (actor : Actor) (s : TaskStore) where
  -- What the checks of `createTask` establish.
  abbrev pub IsAdmitted : TaskType × ℕ → Type 0
  IsAdmitted (type, depth) =
      MayAssign org actor dto.responsible_position_id
      × IsPlaced s type dto.parent_task_id actor depth
      × (find (λ t. t.id == dto.type_id && t.active) s.types ≡ some type)

  admit_task-Checks : Checks IsAdmitted s (admit_task org dto actor s)
  unfolding admit_task
  admit_task-Checks = elim (Option-cases (find (λ t. t.id == dto.type_id && t.active) s.types)) [
    | inl missing ↦ rw missing (refl, tt)
    | inr (type, found) ↦
        let answer : ℕ → Action TaskStore (TaskType × ℕ) = λ depth. pure (type, depth) in
        let place : Action TaskStore (TaskType × ℕ) =
          subtask_depth type actor dto.parent_task_id >>= answer in
        rw found (
          Checks-bind (λ _. MayAssign org actor dto.responsible_position_id) IsAdmitted s
            (assert_assignment_authority org actor.position_id dto.responsible_position_id s)
            (λ _. place) (authority-Checks org actor dto.responsible_position_id s)
            λ _ mine.
              Checks-bind (IsPlaced s type dto.parent_task_id actor) IsAdmitted s
                (subtask_depth type actor dto.parent_task_id s) answer
                (subtask_depth-Checks type actor dto.parent_task_id s)
                λ depth placed. (refl, (mine, placed, found)))
  ]

-- Adding an assignment leaves the tasks alone, whether it succeeds or not.
pub create_assignment_record-tasks :
    (task_id position_id : ℕ) (type : AssignmentType) (actor : Actor) (deadline : Option ℕ)
    (s : TaskStore)
    → (create_assignment_record task_id position_id type actor deadline s).1.tasks ≡ s.tasks
unfolding create_assignment_record
create_assignment_record-tasks task_id position_id type actor deadline s = ground arith

module _ (org : CommandChain) where
  add_co_executor-tasks :
      (task_id : ℕ) (actor : Actor) (co : CoExecutorDto) (s : TaskStore)
      → (add_co_executor org task_id actor co s).1.tasks ≡ s.tasks
  unfolding add_co_executor assert_assignment_authority create_assignment_record
  add_co_executor-tasks task_id actor co s = ground arith

  co_executors-tasks :
      (task_id : ℕ) (actor : Actor) (cos : List CoExecutorDto) (s : TaskStore)
      → (for_each (add_co_executor org task_id actor) cos s).1.tasks ≡ s.tasks
  co_executors-tasks task_id actor [] s = refl
  co_executors-tasks task_id actor (co ∷ cos) s =
      let first = add_co_executor-tasks task_id actor co s in
      let rest = co_executors-tasks task_id actor cos (add_co_executor org task_id actor co s).1 in
      ground arith

  staff_task-tasks :
      (dto : CreateTaskDto) (type : TaskType) (actor : Actor) (task : Task) (s : TaskStore)
      → (staff_task org dto type actor task s).1.tasks ≡ s.tasks
  unfolding staff_task
  staff_task-tasks dto type actor task s =
      let record_of =
        create_assignment_record task.id dto.responsible_position_id primary actor dto.deadline s in
      let first =
        create_assignment_record-tasks task.id dto.responsible_position_id primary actor
          dto.deadline s in
      let rest =
        co_executors-tasks task.id actor (accepted_co_executors org type dto.co_executors)
          record_of.1 in
      ground arith

module _ (org : CommandChain) (dto : CreateTaskDto) (actor : Actor) (s : TaskStore) where
  -- The table has one task more, and the request was admitted.
  abbrev pub IsGrown : Task → List Task → Type 0
  IsGrown task tasks =
      (type : TaskType) × (depth : ℕ) × IsAdmitted org dto actor s (type, depth)
      × (task ≡ new_task s.next_id depth dto type actor)
      × (tasks ≡ new_task s.next_id depth dto type actor ∷ s.tasks)

  -- The outcome: a new task, or an exception before or after it is saved.
  abbrev pub Creation : Result Task × TaskStore → Type 0
  Creation (return task, t) = IsGrown task t.tasks
  Creation (raise e, t) = (t.tasks ≡ s.tasks) ⊎ ((task : Task) × IsGrown task t.tasks)

  staffed-Creation :
      (type : TaskType) (depth : ℕ) (task : Task) (o : Result (Unit {0}) × TaskStore)
      → IsAdmitted org dto actor s (type, depth)
      → task ≡ new_task s.next_id depth dto type actor
      → o.1.tasks ≡ new_task s.next_id depth dto type actor ∷ s.tasks
      → Creation (and_then o (λ _. pure task))
  staffed-Creation type depth task (return u, t) ok row grown = (type, depth, ok, row, grown)
  staffed-Creation type depth task (raise e, t) ok row grown =
      inr (task, (type, depth, ok, row, grown))

  create_from :
      (o : Result (TaskType × ℕ) × TaskStore)
      → admit_task org dto actor s ≡ o
      → Checks (IsAdmitted org dto actor s) s o
      → Creation (create_task org dto actor s)
  unfolding create_task
  create_from (return (type, depth), t) e (same, ok) =
      let start : TaskStore = record t { next_id = suc t.next_id } in
      let task = new_task t.next_id depth dto type actor in
      let saved : TaskStore = record start { tasks = task ∷ start.tasks } in
      let row = ap (λ (u : TaskStore). new_task u.next_id depth dto type actor) same in
      let staffed =
        staff_task-tasks org dto type actor task saved
        ∙ ap (λ (u : TaskStore). new_task u.next_id depth dto type actor ∷ u.tasks) same in
      rw e
        (staffed-Creation type depth task (staff_task org dto type actor task saved) ok row staffed)
  create_from (raise x, t) e (same, _) = rw e (inl (ap (λ (u : TaskStore). u.tasks) same))

  -- A request to create a task that returns has added the task that it returns, and nothing else, to
  -- the task table; one that raises has left the table alone or has added the task all the same. A
  -- task is added only if the actor may give work to the responsible position and the type is active;
  -- a subtask only if moreover its type supports subtasks, and its parent exists and the actor has the
  -- parent's responsible or assigning position. A task without a parent has depth 0, a subtask one
  -- more than its parent and 3 at most: four levels at most, counting the top one.
  pub create_task-Creation : Creation (create_task org dto actor s)
  create_task-Creation =
      create_from (admit_task org dto actor s) refl (admit_task-Checks org dto actor s)

  placed-shallow :
      (type : TaskType) (parent : Option ℕ) (depth : ℕ)
      → IsPlaced s type parent actor depth
      → depth ≤ max_subtask_depth
  placed-shallow type none depth h = omega arith
  placed-shallow type (some k) depth h = h.4

  placed-root :
      (type : TaskType) (parent : Option ℕ) (depth : ℕ)
      → IsPlaced s type parent actor depth
      → parent ≡ none
      → depth ≡ 0
  placed-root type none depth h e = h
  placed-root type (some k) depth h e = cc

  IsGrown-AllValid :
      (task : Task) (tasks : List Task) → IsGrown task tasks → AllValid s → All IsValid tasks
  IsGrown-AllValid task tasks (type, depth, (mine, placed, found), row, grown) h =
      let parent = dto.parent_task_id in
      let valid =
        new_task-IsValid s.next_id depth dto type actor (placed-shallow type parent depth placed)
          (placed-root type parent depth placed) in
      rw grown (valid, h)

  Creation-AllValid : (o : Result Task × TaskStore) → Creation o → AllValid s → AllValid o.1
  Creation-AllValid (return task, t) c h = IsGrown-AllValid task t.tasks c h
  Creation-AllValid (raise e, t) (inl same) h = rw same h
  Creation-AllValid (raise e, t) (inr (task, c)) h = IsGrown-AllValid task t.tasks c h

  -- Creating a task keeps every task valid, also where the request fails half-way.
  pub create_task-AllValid : AllValid s → AllValid (create_task org dto actor s).1
  create_task-AllValid h = Creation-AllValid (create_task org dto actor s) create_task-Creation h
