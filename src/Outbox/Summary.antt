-- ===== src/Outbox/Summary.antt =====
-- The reports of the outbox for the operators: `getOperationsSummary` and `listProblemBacklog`.
use mathlib.Core.Option
use coes_platform.Base.{
  ℕ, ◌+◌, String, Bool, true, false, ◌&&◌, ◌||◌, Option, List, [], ◌∷◌, map, leb, ltb,
  if◌then◌else◌, select, take, length, least_by, greatest_by,
}
use coes_platform.Outbox.{OutboxEvent, OutboxEventStatus, Events, is_retryable, oldest_first}

pub record OutboxStatusCounts : Type 0 where
  pub pending : ℕ
  pub dispatched : ℕ
  pub failed : ℕ
  pub dead_letter : ℕ

pub record LatestFailure : Type 0 where
  pub id : ℕ
  pub event_type : String
  pub source : Option String
  pub last_error : Option String
  pub updated_at : ℕ

pub record OutboxOperationsSummary : Type 0 where
  pub counts : OutboxStatusCounts
  pub retryable_count : ℕ
  pub oldest_pending_at : Option ℕ
  pub next_retry_at : Option ℕ
  pub latest_failure : Option LatestFailure

pub record OutboxBacklogItem : Type 0 where
  pub id : ℕ
  pub event_type : String
  pub source : Option String
  pub status : OutboxEventStatus
  pub attempts : ℕ
  pub max_attempts : ℕ
  pub available_at : ℕ
  pub last_error : Option String
  pub updated_at : ℕ

abbrev pub count_one : OutboxEventStatus → OutboxStatusCounts → OutboxStatusCounts
count_one OutboxEventStatus.pending c = record c { pending = c.pending + 1 }
count_one OutboxEventStatus.dispatched c = record c { dispatched = c.dispatched + 1 }
count_one OutboxEventStatus.failed c = record c { failed = c.failed + 1 }
count_one OutboxEventStatus.dead_letter c = record c { dead_letter = c.dead_letter + 1 }

abbrev pub is_pending : OutboxEventStatus → Bool
is_pending OutboxEventStatus.pending = true
is_pending _ = false

abbrev pub is_failure : OutboxEventStatus → Bool
is_failure OutboxEventStatus.failed = true
is_failure OutboxEventStatus.dead_letter = true
is_failure _ = false

module _ {Payload : Type 0} where
  -- The `reduce`.
  unfoldable pub count_statuses : Events Payload → OutboxStatusCounts → OutboxStatusCounts
  count_statuses [] c = c
  count_statuses (e ∷ es) c = count_statuses es (count_one e.status c)

  abbrev pub retryable : OutboxEvent Payload → Bool
  retryable e = is_retryable e.status && ltb e.attempts e.max_attempts

  abbrev failure_of : OutboxEvent Payload → LatestFailure
  failure_of e = record {
    id = e.id;
    event_type = e.event_type;
    source = e.source;
    last_error = e.last_error;
    updated_at = e.updated_at;
  }

  unfoldable pub get_operations_summary : Events Payload → OutboxOperationsSummary
  unfolding count_statuses
  get_operations_summary table =
      let events = oldest_first table in
      let retries = select retryable events in
      record {
        counts =
            count_statuses events
              (record { pending = 0; dispatched = 0; failed = 0; dead_letter = 0 });
        retryable_count = length retries;
        oldest_pending_at =
            Option.map (λ (e : OutboxEvent Payload). e.created_at)
              (least_by (λ e. e.created_at) (select (λ e. is_pending e.status) events));
        next_retry_at =
            Option.map (λ (e : OutboxEvent Payload). e.available_at)
              (least_by (λ e. e.available_at) retries);
        latest_failure =
            Option.map failure_of
              (greatest_by (λ e. e.updated_at) (select (λ e. is_failure e.status) events));
      }

  abbrev pub backlog_item : OutboxEvent Payload → OutboxBacklogItem
  backlog_item e = record {
    id = e.id;
    event_type = e.event_type;
    source = e.source;
    status = e.status;
    attempts = e.attempts;
    max_attempts = e.max_attempts;
    available_at = e.available_at;
    last_error = e.last_error;
    updated_at = e.updated_at;
  }

  -- `ORDER BY updated_at DESC`, stable.
  unfoldable pub insert_by_update : OutboxEvent Payload → Events Payload → Events Payload
  insert_by_update e [] = e ∷ []
  insert_by_update e (x ∷ xs) =
      let rest = insert_by_update e xs in
      if leb x.updated_at e.updated_at then e ∷ x ∷ xs else x ∷ rest

  unfoldable pub latest_first : Events Payload → Events Payload
  unfolding insert_by_update
  latest_first [] = []
  latest_first (e ∷ es) = insert_by_update e (latest_first es)

  abbrev pub is_problem : OutboxEvent Payload → Bool
  is_problem e = is_pending e.status || is_failure e.status

  unfoldable pub list_problem_backlog : ℕ → Events Payload → List OutboxBacklogItem
  unfolding latest_first
  list_problem_backlog limit events =
      map backlog_item (take limit (latest_first (select is_problem events)))
