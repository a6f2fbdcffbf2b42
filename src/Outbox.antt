-- ===== src/Outbox.antt =====
-- outbox.service.ts: events are stored, then handed to the listeners, again until they succeed or
-- run out of attempts. `emit` is the event emitter of the framework with the listeners behind it:
-- what it throws, if it throws. A call reads the clock once, as `now`, in milliseconds.
pub mod Valid
pub mod Retry
pub mod Batch
pub mod Summary
pub mod Reports
pub mod Runs
mod Samples
use Prim.Native.Nat.{min, max}
use coes_platform.Base.{
  ℕ, zero, suc, ◌+◌, ◌*◌, String, Bool, true, false, ◌&&◌, ◌||◌, Option, none, some, List, [], ◌∷◌,
  ◌==◌, ltb, leb, or_else, if◌then◌else◌, find, select, take, save_row,
}
use coes_platform.Base.Action.{Action, not_found, get, modify, pure, require, for_each, ◌>>=◌, ◌>>◌}

pub data OutboxEventStatus : Type 0 where
  pending dispatched failed dead_letter : OutboxEventStatus

module _ (Payload : Type 0) where
  pub record OutboxEvent : Type 0 where
    pub id : ℕ
    pub event_type : String
    pub payload : Payload
    pub status : OutboxEventStatus
    pub source : Option String
    pub aggregate_type : Option String
    pub aggregate_id : Option ℕ
    pub attempts : ℕ
    pub max_attempts : ℕ
    pub available_at : ℕ
    pub last_attempt_at : Option ℕ
    pub dispatched_at : Option ℕ
    pub last_error : Option String
    pub created_at : ℕ
    pub updated_at : ℕ

pub record PublishOptions : Type 0 where
  pub source : Option String
  pub aggregate_type : Option String
  pub aggregate_id : Option ℕ
  pub max_attempts : Option ℕ

unfoldable pub compute_backoff_ms : ℕ → ℕ
compute_backoff_ms attempts = min 60_000 (max 5_000 (attempts * 5_000))

abbrev pub Events : Type 0 → Type 0
Events Payload = List (OutboxEvent Payload)

abbrev pub Emit : Type 0 → Type 0
Emit Payload = (now : ℕ) → String → Payload → Option String

abbrev pub is_retryable : OutboxEventStatus → Bool
is_retryable pending = true
is_retryable failed = true
is_retryable _ = false

abbrev pub batch_limit : ℕ
batch_limit = 50

module _ {Payload : Type 0} where
  abbrev pub event_id : OutboxEvent Payload → ℕ
  event_id e = e.id

  -- The `try` and the `catch` of `dispatchStoredEvent`, by what `emit` throws.
  abbrev pub settle : ℕ → OutboxEvent Payload → Option String → OutboxEvent Payload
  settle now e none = record e {
    status = dispatched;
    dispatched_at = some now;
    last_error = none;
    available_at = now;
  }
  settle now e (some message) = record e {
    last_error = some message;
    status = if leb e.max_attempts e.attempts then dead_letter else failed;
    available_at = now + compute_backoff_ms e.attempts;
  }

  -- The row that `dispatchStoredEvent` saves.
  unfoldable pub attempt : Emit Payload → ℕ → OutboxEvent Payload → OutboxEvent Payload
  attempt emit now e =
      let tried : OutboxEvent Payload = record e {
        attempts = e.attempts + 1;
        last_attempt_at = some now;
        updated_at = now;
      } in
      settle now tried (emit now e.event_type e.payload)

  unfoldable pub dispatch_stored_event :
      Emit Payload → ℕ → OutboxEvent Payload → Action (Events Payload) (OutboxEvent Payload)
  dispatch_stored_event emit now e = do
    let saved = attempt emit now e
    modify (save_row event_id saved)
    pure saved

  unfoldable pub publish :
      Emit Payload
      → (now new_id : ℕ) → String
      → Payload
      → PublishOptions
      → Action (Events Payload) (OutboxEvent Payload)
  unfolding dispatch_stored_event
  publish emit now new_id event_type payload options = do
    let event : OutboxEvent Payload = record {
      id = new_id;
      event_type = event_type;
      payload = payload;
      status = pending;
      source = options.source;
      aggregate_type = options.aggregate_type;
      aggregate_id = options.aggregate_id;
      attempts = 0;
      max_attempts = or_else options.max_attempts 10;
      available_at = now;
      last_attempt_at = none;
      dispatched_at = none;
      last_error = none;
      created_at = now;
      updated_at = now;
    }
    modify (save_row event_id event)
    dispatch_stored_event emit now event

  -- The `where` of the batch query.
  abbrev pub is_due : ℕ → OutboxEvent Payload → Bool
  is_due now e = is_retryable e.status && leb e.available_at now && ltb e.attempts e.max_attempts

  -- `ORDER BY created_at ASC`, stable.
  unfoldable pub insert_by_age : OutboxEvent Payload → Events Payload → Events Payload
  insert_by_age e [] = e ∷ []
  insert_by_age e (x ∷ xs) =
      let rest = insert_by_age e xs in
      if leb e.created_at x.created_at then e ∷ x ∷ xs else x ∷ rest

  unfoldable pub oldest_first : Events Payload → Events Payload
  unfolding insert_by_age
  oldest_first [] = []
  oldest_first (e ∷ es) = insert_by_age e (oldest_first es)

  unfoldable pub due_batch : ℕ → Events Payload → Events Payload
  unfolding oldest_first
  due_batch now events = take batch_limit (oldest_first (select (is_due now) events))

  -- The body of the `for`.
  abbrev pub dispatch_round :
      Emit Payload → ℕ → OutboxEvent Payload → Action (Events Payload) (Unit {0})
  dispatch_round emit now e = dispatch_stored_event emit now e >>= λ _. pure tt

  unfoldable pub dispatch_pending_batch : Emit Payload → ℕ → Action (Events Payload) (Unit {0})
  unfolding dispatch_stored_event due_batch
  dispatch_pending_batch emit now = do
    events ← get
    for_each (dispatch_round emit now) (due_batch now events)

  unfoldable pub replay_event :
      Emit Payload → (now event_id : ℕ) → Action (Events Payload) (OutboxEvent Payload)
  unfolding dispatch_stored_event
  replay_event emit now k = do
    events ← get
    event ← require (find (λ e. e.id == k) events) not_found
    let reset : OutboxEvent Payload = record event {
      status = pending;
      attempts = 0;
      last_error = none;
      available_at = now;
      updated_at = now;
    }
    modify (save_row event_id reset)
    dispatch_stored_event emit now reset

  unfoldable pub mark_dead_letter :
      (now event_id : ℕ) → Action (Events Payload) (OutboxEvent Payload)
  mark_dead_letter now k = do
    events ← get
    event ← require (find (λ e. e.id == k) events) not_found
    let marked : OutboxEvent Payload = record event {
      status = dead_letter;
      last_error = some (or_else event.last_error "Forced into dead-letter by admin operator");
      available_at = now;
      updated_at = now;
    }
    modify (save_row event_id marked)
    pure marked
