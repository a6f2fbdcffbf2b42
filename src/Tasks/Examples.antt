-- ===== src/Tasks/Examples.antt =====
-- The theorems on the task service at the small table.
use coes_platform.Base.{
  All, List, [], ◌∷◌, ◌≤◌, true, none, ◌≡◌, ◌⊎◌, refl, save_row, update_where, HasIds, arith,
}
use coes_platform.Base.Action.{return, raise, query_failed}
use coes_platform.Tasks.State.{Actor, TaskStore, verified, closed, pending, task_id}
use coes_platform.Tasks.Status.{may_go}
use coes_platform.Tasks.Create.{create_task}
use coes_platform.Tasks.Transition.{apply_status, transition_status}
use coes_platform.Tasks.Executors.{admit_reassignment, reassign_task}
use coes_platform.Tasks.Extensions.{
  is_late, flag_overdue, request_deadline_extension, mark_overdue_tasks,
}
use coes_platform.Tasks.Invariant.{AllValid}
use coes_platform.Tasks.Creation.{Creation, create_task-Creation}
use coes_platform.Tasks.Overdue.{mark_overdue_tasks_lem}
use coes_platform.Tasks.Oversight.{transition_status-own_task, reassign_task-partial}
use coes_platform.Tasks.Requests.{open_requests, request_deadline_extension-one_open}
use coes_platform.Tasks.Machine.{Reaches, here, next, Reaches-settled}
use coes_platform.Tasks.Runs.{
  Request, on_task, serve_task, progress, detection, transition, update, creation, IsLegal,
  serve_all, serve_all-AllValid,
}
use coes_platform.Tasks.Secrecy.{serve_task-uncleared}
use coes_platform.Tasks.Samples.{
  chain, actor, office, finish, verify, subtask, retitled, work, part, program,
}

office-AllValid : AllValid office
office-AllValid = ground arith

-- The table with an open request for a later deadline.
abbrev asked : TaskStore
asked = record office {
  extensions =
      record {
        id = 30;
        task_id = 11;
        requester_position_id = 3;
        requester_id = 3;
        current_deadline = 20;
        requested_deadline = 26;
        justification = "the road is blocked";
        status = pending;
        reviewed_by_position_id = none;
        reviewed_by_id = none;
        review_remarks = none;
        reviewed_at = none;
      }
      ∷ [];
}

create_task-Creation_example :
    Creation chain subtask (actor 3) office (create_task chain subtask (actor 3) office)
create_task-Creation_example = create_task-Creation chain subtask (actor 3) office

office-HasIds : HasIds task_id office.tasks
office-HasIds = ground arith

mark_overdue_tasks_lem_example :
    ((mark_overdue_tasks 21 99 office).0 ≡ return 1)
    × ((mark_overdue_tasks 21 99 office).1.tasks
        ≡ update_where task_id (is_late 21) (flag_overdue 99) office.tasks)
mark_overdue_tasks_lem_example = mark_overdue_tasks_lem 21 99 office office-HasIds

own_verification : may_go part.status verify.target_status ≡ true
unfolding program
own_verification = refl

known_3 : chain.known 3 ≡ true
unfolding program
known_3 = refl

transition_status-own_task_example :
    (transition_status chain 50 12 verify (actor 3) office).0
    ≡ return (apply_status verify 50 part verified)
transition_status-own_task_example =
    transition_status-own_task chain 50 12 verify (actor 3) office part known_3 refl refl
      (omega arith) own_verification refl

admitted_4 : admit_reassignment chain 11 4 (actor 2) office ≡ (return work, office)
unfolding program
admitted_4 = refl

reassign_task-partial_example :
    let after = reassign_task chain 60 11 4 "leave" (actor 2) office in
    (after.0 ≡ raise query_failed)
    × (after.1.tasks ≡ save_row task_id (record work { responsible_position_id = 4 }) office.tasks)
reassign_task-partial_example =
    reassign_task-partial chain 60 11 4 "leave" (actor 2) office work (ground arith) admitted_4 refl
      refl

request_deadline_extension-one_open_example :
    open_requests 11
      (request_deadline_extension 11 26 "the road is blocked" (actor 3) office).1.extensions
    ≤ 1
request_deadline_extension-one_open_example =
    request_deadline_extension-one_open 11 11 26 "the road is blocked" (actor 3) office
      (omega arith)

verified_to_closed : Reaches verified closed
unfolding program
verified_to_closed = next refl here

Reaches-settled_example : (closed ≡ verified) ⊎ (closed ≡ closed)
Reaches-settled_example = Reaches-settled verified_to_closed refl

-- The work is reported as done, late work is flagged, and the executor verifies it himself.
abbrev day : List Request
day =
    on_task 11 (actor 4) (progress 60 none)
    ∷ detection 21 99
    ∷ on_task 11 (actor 3) (transition 100 finish)
    ∷ on_task 11 (actor 3) (transition 101 verify)
    ∷ on_task 11 (actor 2) (update retitled)
    ∷ creation subtask (actor 3)
    ∷ []

day-IsLegal : All IsLegal day
day-IsLegal = ground arith

serve_all-AllValid_example : AllValid (serve_all chain day office)
serve_all-AllValid_example = serve_all-AllValid chain day office day-IsLegal office-AllValid

-- Position 4 without clearance.
abbrev uncleared : Actor
uncleared = record { id = 4; position_id = 4; clearance = 0 }

serve_task-uncleared_example : serve_task chain 11 uncleared (progress 60 none) office ≡ office
serve_task-uncleared_example =
    serve_task-uncleared chain 11 uncleared office work (progress 60 none) refl (omega arith)
