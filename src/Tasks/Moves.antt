-- ===== src/Tasks/Moves.antt =====
-- `transitionStatus`: when it is refused, when it is done, and what it then changes.
use coes_platform.Base.{
  ℕ, ◌≤◌, Bool, true, false, not, Option, none, some, List, [], ◌∷◌, ◌≡◌, inl, inr, refl, ◌==◌,
  Option-cases, save_row, arith, ◌∙◌, ap, ◌++◌,
}
use coes_platform.Base.Action.{Action, when, pure, >>-eq, Result, return, raise}
use coes_platform.Org.Port.{CommandChain}
use coes_platform.Tasks.State.{
  Task, TaskStatus, accepted, Actor, TaskStore, task_of, task_id, history, audit, changed,
  status_changed,
}
use coes_platform.Tasks.Status.{may_go}
use coes_platform.Tasks.Checks.{may_enter}
use coes_platform.Tasks.Transition.{
  TransitionDto, apply_status, lacks_field, admit_transition, transition_status,
  propagate_to_parent, perform_transition, accept_assignment, request_channel, notify_parent,
  children_of, is_empty,
}

-- The parts that only report return, and leave the tasks alone.
abbrev IsQuiet : Action TaskStore (Unit {0}) → TaskStore → Type 0
IsQuiet m s = ((m s).0 ≡ return tt) × ((m s).1.tasks ≡ s.tasks)

accept_assignment-IsQuiet :
    (now : ℕ) (actor : Actor) (id : ℕ) (target : TaskStatus) (s : TaskStore)
    → IsQuiet (accept_assignment now actor id target) s
accept_assignment-IsQuiet now actor id accepted s = ground arith
accept_assignment-IsQuiet now actor id _ s = (refl, refl)

request_channel-IsQuiet :
    (task : Task) (from to : TaskStatus) (s : TaskStore) → IsQuiet (request_channel task from to) s
request_channel-IsQuiet task from to s = ground arith

when-IsQuiet :
    (test : Bool) (m : Action TaskStore (Unit {0})) (s : TaskStore)
    → IsQuiet m s
    → IsQuiet (when test m) s
when-IsQuiet true m s h = h
when-IsQuiet false m s h = (refl, refl)

notify_parent-IsQuiet :
    (actor : Actor) (parent : Task) (children : List Task) (s : TaskStore)
    → IsQuiet (notify_parent actor parent children) s
notify_parent-IsQuiet actor parent children s = ground arith

propagate_to_parent-IsQuiet :
    (actor : Actor) (parent : Option ℕ) (s : TaskStore)
    → IsQuiet (propagate_to_parent actor parent) s
unfolding propagate_to_parent
propagate_to_parent-IsQuiet actor none s = (refl, refl)
propagate_to_parent-IsQuiet actor (some k) s = elim (Option-cases (task_of k s)) [
  | inl missing ↦ rw missing (refl, refl)
  | inr (parent, found) ↦ rw found (
      when-IsQuiet (not (is_empty (children_of parent.id s)))
        (notify_parent actor parent (children_of parent.id s)) s
        (notify_parent-IsQuiet actor parent (children_of parent.id s) s))
]

-- The rows and the reports that `perform_transition` writes itself.
abbrev write_transition : ℕ → Actor → Task → Task → TaskStatus → TaskStore → TaskStore
write_transition id actor task moved target s = record s {
  tasks = save_row task_id moved s.tasks;
  reports =
      s.reports
      ++ history id status_changed (some actor.id) (some actor.position_id)
        ∷ audit "TASK_STATUS_CHANGED" id actor.id
        ∷ changed id task.status target actor.id
        ∷ [];
}

perform_transition_lem :
    (now id : ℕ) (dto : TransitionDto) (actor : Actor) (task : Task) (s : TaskStore)
    → let moved = apply_status dto now task dto.target_status in
      (t : TaskStore) × (perform_transition now id dto actor task s ≡ (return moved, t))
      × (t.tasks ≡ save_row task_id moved s.tasks)
unfolding perform_transition
perform_transition_lem now id dto actor task s =
    let target = dto.target_status in
    let moved = apply_status dto now task target in
    let accept = accept_assignment now actor id target in
    let (accepts, keeps) = accept_assignment-IsQuiet now actor id target s in
    let written = write_transition id actor task moved target (accept s).1 in
    let propagate = propagate_to_parent actor task.parent_task_id in
    let (propagates, keeps') = propagate_to_parent-IsQuiet actor task.parent_task_id written in
    let request = request_channel moved task.status target in
    let (requests, keeps'') =
      request_channel-IsQuiet moved task.status target (propagate written).1 in
    (
      (request (propagate written).1).1,
      >>-eq accept _ s accepts
          ∙ >>-eq propagate _ written propagates
          ∙ >>-eq request (pure moved) (propagate written).1 requests,
      keeps'' ∙ keeps' ∙ ap (save_row task_id moved) keeps,
    )

module _ (org : CommandChain) where
  -- The actor's part in the task lets him bring it into the status.
  abbrev pub has_authority : Task → TaskStatus → Actor → Bool
  has_authority task target actor =
      may_enter (task.responsible_position_id == actor.position_id)
        (task.assigning_position_id == actor.position_id)
        (org.is_subordinate_to task.responsible_position_id actor.position_id) target

  -- What a request for a transition has to meet.
  pub record IsAllowed (id : ℕ) (dto : TransitionDto) (actor : Actor) (s : TaskStore) (task : Task)
      : Type 0 where
    pub found : task_of id s ≡ some task
    pub cleared : task.classification ≤ actor.clearance
    pub edge : may_go task.status dto.target_status ≡ true
    pub authority : has_authority task dto.target_status actor ≡ true
    pub fields : lacks_field dto dto.target_status ≡ false

  module _ (id : ℕ) (dto : TransitionDto) (actor : Actor) (s : TaskStore) where
    admit_allowed :
        (task : Task)
        → IsAllowed id dto actor s task
        → admit_transition org id dto actor s ≡ (return task, s)
    unfolding admit_transition
    admit_allowed task ok = ground arith

    abbrev Verdict : Result Task × TaskStore → Type 0
    Verdict (return task, t) = (t ≡ s) × IsAllowed id dto actor s task
    Verdict (raise e, t) = t ≡ s

    admit-Verdict : Verdict (admit_transition org id dto actor s)
    unfolding admit_transition
    admit-Verdict = ground arith

    pub transition_allowed :
        (now : ℕ) (task : Task)
        → IsAllowed id dto actor s task
        → let moved = apply_status dto now task dto.target_status in
          (t : TaskStore) × (transition_status org now id dto actor s ≡ (return moved, t))
          × (t.tasks ≡ save_row task_id moved s.tasks)
    unfolding transition_status
    transition_allowed now task ok =
        rw (admit_allowed task ok) (perform_transition_lem now id dto actor task s)

    -- The outcome that the conditions prescribe: what is done, or that nothing is.
    abbrev pub Outcome : ℕ → Result Task × TaskStore → Type 0
    Outcome now (return moved, t) =
        (task : Task) × IsAllowed id dto actor s task
        × (moved ≡ apply_status dto now task dto.target_status)
        × (t.tasks ≡ save_row task_id moved s.tasks)
    Outcome now (raise e, t) = (t ≡ s) × ((task : Task) → ¬ IsAllowed id dto actor s task)

    admitted-Outcome :
        (now : ℕ) (o : Result Task × TaskStore)
        → admit_transition org id dto actor s ≡ o
        → Verdict o
        → Outcome now (transition_status org now id dto actor s)
    unfolding transition_status
    admitted-Outcome now (return task, t) e (same, ok) =
        let (after, done, saved) = transition_allowed now task ok in
        rw (admit_allowed task ok) (
          rw (perform_transition_lem now id dto actor task s).1
            (task, ok, refl, (perform_transition_lem now id dto actor task s).2))
    admitted-Outcome now (raise x, t) e same =
        rw e (same, λ task ok. let passed = admit_allowed task ok in cc)

    pub transition_status-Outcome :
        (now : ℕ) → Outcome now (transition_status org now id dto actor s)
    transition_status-Outcome now =
        admitted-Outcome now (admit_transition org id dto actor s) refl admit-Verdict
