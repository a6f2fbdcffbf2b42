-- ===== src/Outbox/Samples.antt =====
-- Small tables of events, and what the outbox does on them. A payload is a number.
use mathlib.Core.List.{Memᴰ}
use coes_platform.Base.{
  List, ℕ, ◌+◌, String, true, false, Option, none, some, [], ◌∷◌, ◌≡◌, refl, map, All, find, ◌==◌,
  leb, ltb, ◌&&◌, arith,
}
use coes_platform.Outbox.{
  OutboxEvent, OutboxEventStatus, PublishOptions, Events, Emit, pending, dispatched, failed,
  dead_letter, compute_backoff_ms, attempt, publish, dispatch_stored_event, oldest_first,
  insert_by_age, due_batch, dispatch_pending_batch, replay_event, mark_dead_letter, is_due,
}
use coes_platform.Outbox.Runs.{
  Request, publication, batch, replay, burial, serve_all, serve_requests-AllValid,
}
use coes_platform.Outbox.Valid.{IsValid}
use coes_platform.Outbox.Retry.{attempts_at, failing_status, attempts_at-failing, attempt-due}
use coes_platform.Outbox.Batch.{
  IsDistinct, dispatch_pending_batch-due, dispatch_pending_batch-not_due,
}
use coes_platform.Outbox.Summary.{get_operations_summary}
use coes_platform.Outbox.Reports.{
  IsNextRetry, IsCounted, get_operations_summary-IsCounted, get_operations_summary-IsNextRetry,
}

abbrev event :
    ℕ
    → OutboxEventStatus
    → (attempts : ℕ) → (available_at created_at : ℕ) → Option String
    → (dispatched_at : Option ℕ) → OutboxEvent ℕ
event k status attempts available_at created_at last_error dispatched_at = record {
  id = k;
  event_type = "task.created";
  payload = k;
  status = status;
  source = none;
  aggregate_type = none;
  aggregate_id = none;
  attempts = attempts;
  max_attempts = 2;
  available_at = available_at;
  last_attempt_at = none;
  dispatched_at = dispatched_at;
  last_error = last_error;
  created_at = created_at;
  updated_at = created_at;
}

abbrev waiting : OutboxEvent ℕ
waiting = event 3 pending 0 90 90 none none

abbrev retried : OutboxEvent ℕ
retried = event 2 failed 1 100 60 (some "timeout") none

abbrev sent : OutboxEvent ℕ
sent = event 1 dispatched 1 50 50 none (some 50)

abbrev table : Events ℕ
table = waiting ∷ retried ∷ sent ∷ []

-- The listeners throw, whatever the event.
abbrev broken : Emit ℕ
broken now event_type payload = some "no listener answers"

abbrev working : Emit ℕ
working now event_type payload = none

abbrev options : PublishOptions
options = record {
  source = none;
  aggregate_type = none;
  aggregate_id = none;
  max_attempts = some 1;
}

program : Unit {0}
unfolding attempt dispatch_stored_event publish oldest_first insert_by_age due_batch
    dispatch_pending_batch replay_event mark_dead_letter compute_backoff_ms
program = tt

due_ids : map (λ (e : OutboxEvent ℕ). e.id) (due_batch 100 table) ≡ 2 ∷ 3 ∷ []
unfolding program
due_ids = refl

after_failures :
    map (λ (e : OutboxEvent ℕ). e.status) (dispatch_pending_batch broken 100 table).1
    ≡ failed ∷ dead_letter ∷ dispatched ∷ []
unfolding program
after_failures = refl

replayed_after_all :
    map (λ (e : OutboxEvent ℕ). e.status) (replay_event working 200 2 table).1
    ≡ pending ∷ dispatched ∷ dispatched ∷ []
unfolding program
replayed_after_all = refl

table-IsValid : All IsValid table
table-IsValid = ground arith

table-IsDistinct : IsDistinct table
table-IsDistinct = ground arith

retried_due : Memᴰ retried (due_batch 100 table)
unfolding program
retried_due = Memᴰ.head refl

dispatch_pending_batch-due_example :
    find (λ x. x.id == 2) (dispatch_pending_batch broken 100 table).1
    ≡ some (attempt broken 100 retried)
dispatch_pending_batch-due_example =
    dispatch_pending_batch-due broken 100 table {e = retried} table-IsDistinct retried_due

sent_not_due : All (λ (e : OutboxEvent ℕ). e.id ≡ 1 → is_due 100 e ≡ false) table
sent_not_due = ground arith

dispatch_pending_batch-not_due_example :
    find (λ x. x.id == 1) (dispatch_pending_batch broken 100 table).1 ≡ some sent
dispatch_pending_batch-not_due_example =
    dispatch_pending_batch-not_due broken 100 1 table sent_not_due

attempts_at-failing_example :
    let r = attempts_at broken (100 ∷ 5_100 ∷ []) waiting in
    (r.attempts ≡ 2) × (r.status ≡ failing_status 2 2)
attempts_at-failing_example =
    attempts_at-failing broken (λ now t p. ("no listener answers", refl)) 100 (5_100 ∷ []) waiting

attempt-due_example :
    is_due 5_100 (attempt broken 100 waiting)
    ≡ (true && (leb (100 + compute_backoff_ms 1) 5_100 && ltb 1 2))
attempt-due_example = attempt-due broken 100 5_100 waiting

get_operations_summary-IsCounted_example : IsCounted table (get_operations_summary table)
get_operations_summary-IsCounted_example = get_operations_summary-IsCounted table

get_operations_summary-IsNextRetry_example :
    IsNextRetry table (get_operations_summary table).next_retry_at
get_operations_summary-IsNextRetry_example = get_operations_summary-IsNextRetry table

abbrev requests : List (Emit ℕ × Request ℕ)
requests =
    (broken, publication 100 4 "task.closed" 9 options)
    ∷ (broken, batch 6_000)
    ∷ (broken, replay 7_000 1)
    ∷ (broken, burial 8_000 3)
    ∷ []

serve_requests-AllValid_example : All IsValid (serve_all requests table)
serve_requests-AllValid_example =
    serve_requests-AllValid requests table (omega arith, (tt, (tt, (tt, tt)))) table-IsValid
