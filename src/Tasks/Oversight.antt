-- ===== src/Tasks/Oversight.antt =====
-- What the checks of `transitionStatus` and `reassignTask` leave open.
use coes_platform.Base.{
  ℕ, ◌≤◌, String, Bool, true, false, some, ◌≡◌, refl, ap, append_text, ◌==◌, any, Option-cases,
  save_row, arith, HasIds, any-save_row, find-passes, inl, inr, ◌&&◌,
}
use coes_platform.Base.Action.{return, raise, query_failed}
use coes_platform.Org.Port.{CommandChain}
use coes_platform.Tasks.State.{
  Task, TaskStatus, Actor, TaskAssignment, TaskStore, task_id, task_of, is_active,
}
use coes_platform.Tasks.Status.{may_go}
use coes_platform.Tasks.Checks.{may_enter, is_assigned, create_assignment_record}
use coes_platform.Tasks.Transition.{TransitionDto, apply_status, lacks_field, transition_status}
use coes_platform.Tasks.Executors.{
  row_id, close_assignment, active_primary, admit_reassignment, reassign_task,
}
use coes_platform.Tasks.Moves.{IsAllowed, transition_allowed, has_authority}

may_enter-both :
    (assigning : Bool) (target : TaskStatus) → may_enter true assigning true target ≡ true
may_enter-both assigning target = ground arith

own_authority :
    (org : CommandChain) (task : Task) (target : TaskStatus) (actor : Actor)
    → task.responsible_position_id ≡ actor.position_id
    → org.known actor.position_id ≡ true
    → has_authority org task target actor ≡ true
own_authority org task target actor own known =
    let above = org.subordinate_refl actor.position_id known in
    let executes : (task.responsible_position_id == actor.position_id) ≡ true = ground arith in
    let supervises : org.is_subordinate_to task.responsible_position_id actor.position_id ≡ true =
      rw own above in
    rw executes
      (rw supervises (may_enter-both (task.assigning_position_id == actor.position_id) target))

-- The responsible executor, if his position is known, passes as his own supervisor: he brings his
-- task along every edge of the state machine, to whatever status, once he is cleared for the task
-- and gives the fields of the target status.
pub transition_status-own_task :
    (org : CommandChain) (now id : ℕ) (dto : TransitionDto) (actor : Actor) (s : TaskStore)
    (task : Task)
    → org.known actor.position_id ≡ true
    → task_of id s ≡ some task
    → task.responsible_position_id ≡ actor.position_id
    → task.classification ≤ actor.clearance
    → may_go task.status dto.target_status ≡ true
    → lacks_field dto dto.target_status ≡ false
    → (transition_status org now id dto actor s).0
      ≡ return (apply_status dto now task dto.target_status)
transition_status-own_task org now id dto actor s task known found own cleared edge fields =
    let ok : IsAllowed org id dto actor s task = record {
      found = found;
      cleared = cleared;
      edge = edge;
      authority = own_authority org task dto.target_status actor own known;
      fields = fields;
    } in
    ap (λ o. o.0) ((transition_allowed org id dto actor s now task ok).1)

still_assigned :
    (now id target : ℕ) (reason : String) (s : TaskStore) (task : Task) (a : TaskAssignment)
    → HasIds row_id s.assignments
    → active_primary id task.responsible_position_id s ≡ some a
    → (task.responsible_position_id == target) ≡ false
    → is_assigned id target s ≡ true
    → any
        (λ r. r.task_id == id && r.position_id == target && is_active r.status)
        (save_row row_id (close_assignment now (some reason) a) s.assignments)
      ≡ true
still_assigned now id target reason s task a ids found other taken =
    let passes = find-passes _ s.assignments found in
    any-save_row row_id _ _ a (close_assignment now (some reason) a) s.assignments ids taken found
      (ground arith) refl

-- In a table of assignments with distinct ids, a reassignment that passes its checks, to a position
-- other than the responsible one that has an active assignment to the task, fails with the unique
-- index; the task has its new responsible position all the same.
pub reassign_task-partial :
    (org : CommandChain) (now id target : ℕ) (reason : String) (actor : Actor) (s : TaskStore)
    (task : Task)
    → HasIds row_id s.assignments
    → admit_reassignment org id target actor s ≡ (return task, s)
    → (task.responsible_position_id == target) ≡ false
    → is_assigned id target s ≡ true
    → let after = reassign_task org now id target reason actor s in
      (after.0 ≡ raise query_failed)
      × (after.1.tasks
          ≡ save_row task_id (record task { responsible_position_id = target }) s.tasks)
unfolding reassign_task create_assignment_record
reassign_task-partial org now id target reason actor s task ids admitted other taken =
    elim (Option-cases (active_primary id task.responsible_position_id s)) [
      | inl missing ↦ rw admitted (rw missing (rw taken (refl, refl)))
      | inr (a, found) ↦
          let still =
            still_assigned now id target (append_text "Reassigned: " reason) s task a ids found
              other taken in
          rw admitted (rw found (rw still (refl, refl)))
    ]
