-- ===== src/Inbox/Samples.antt =====
-- Small runs of the inbox.
use coes_platform.Base.{
  ℕ, map, ◌+◌, ◌≤◌, String, true, false, Option, none, some, List, [], ◌∷◌, ◌≡◌, ◌↔◌, refl, arith,
}
use coes_platform.Base.Action.{return, raise, handler_failed}
use coes_platform.Inbox.{
  InboxMessage, Messages, Delivery, completed, failed, claim, save_claim, finish_message,
  execute_once, fresh_message, row,
}
use coes_platform.Inbox.Once.{
  World, Op, look, write, settle, step, run, in_flight, times_handled, IsTracked, IsCalm,
  run-handled_once, run-completed,
}
use coes_platform.Inbox.Sequential.{execute_once-twice}

abbrev delivery : (new_id now : ℕ) → Delivery
delivery new_id now = record {
  new_id = new_id;
  now = now;
  consumer = "search";
  event_type = "task.created";
  key = 7;
  payload = 3;
}

abbrev start : World
start = record { table = []; claims = []; running = []; handled = [] }

-- Two deliveries look the message up before either writes, and a third comes after the handler.
abbrev traffic : List Op
traffic =
    look (delivery 1 10)
    ∷ look (delivery 2 11)
    ∷ write 7
    ∷ write 7
    ∷ settle 25 7 none
    ∷ look (delivery 3 30)
    ∷ write 7
    ∷ []

-- After a failure two deliveries may both claim the message.
abbrev race : List Op
race =
    look (delivery 1 10)
    ∷ write 7
    ∷ settle 11 7 (some "timeout")
    ∷ look (delivery 2 20)
    ∷ look (delivery 3 21)
    ∷ write 7
    ∷ write 7
    ∷ settle 25 7 none
    ∷ settle 26 7 none
    ∷ []

program : Unit {0}
unfolding claim save_claim finish_message execute_once step run
program = tt

traffic_handled : (run start traffic).handled ≡ 7 ∷ []
unfolding program
traffic_handled = refl

race_handled_twice : (run start race).handled ≡ 7 ∷ 7 ∷ []
unfolding program
race_handled_twice = refl

-- The row at the end: the claim of the second delivery, which was written first.
abbrev last_row : InboxMessage
last_row = record (fresh_message (delivery 2 11)) { status = completed; updated_at = 25 }

traffic_ends : row 7 (run start traffic).table ≡ some last_row
unfolding program
traffic_ends = refl

start-IsTracked : IsTracked 7 start
start-IsTracked = record { own = (refl, refl); sound = tt; fresh = tt }

traffic-IsCalm : IsCalm traffic
traffic-IsCalm = ground arith

abbrev quiet : Messages → Option String × Messages
quiet table = (none, table)

quiet_returns : (execute_once (delivery 1 10) quiet []).0 ≡ return true
unfolding program
quiet_returns = refl

-- A handler that throws: the row is marked as failed and the exception is thrown on.
handler_throws :
    let o = execute_once (delivery 1 10) (λ table. (some "timeout", table)) [] in
    (o.0 ≡ raise handler_failed) × (map (λ m. m.status) o.1 ≡ failed ∷ [])
unfolding program
handler_throws = (refl, refl)

run-handled_once_example : in_flight 7 (run start traffic) + times_handled 7 (run start traffic) ≤ 1
run-handled_once_example = run-handled_once 7 traffic start traffic-IsCalm start-IsTracked

run-completed_example : (last_row.status ≡ completed) ↔ (times_handled 7 (run start traffic) ≡ 1)
run-completed_example =
    run-completed 7 traffic start {m = last_row} traffic-IsCalm start-IsTracked traffic_ends

execute_once-twice_example :
    execute_once (delivery 2 20) quiet (execute_once (delivery 1 10) quiet []).1
    ≡ (return false, (execute_once (delivery 1 10) quiet []).1)
execute_once-twice_example =
    execute_once-twice (delivery 1 10) (delivery 2 20) quiet quiet [] refl quiet_returns
