-- ===== src/Inbox.antt =====
-- inbox.service.ts: a consumer's handler runs once for each message. `executeOnce` waits three times,
-- so it is three steps, and other calls may come between them: it looks the message up, it saves its
-- claim, and it settles the message when the handler has returned or thrown.
-- A message's key (consumer, event type and the SHA-256 hash of the payload) is a number, its
-- payload too: equal keys are equal numbers.
pub mod Once
pub mod Sequential
mod Samples
use coes_platform.Base.{
  ℕ, ◌+◌, String, Bool, true, false, ◌&&◌, Option, none, some, List, [], ◌∷◌, ◌==◌, leb, find,
  count, save_row, is_some,
}
use coes_platform.Base.Action.{
  Action, return, not_found, query_failed, handler_failed, Result, raise, throw_if, get, modify,
  pure, require, ◌>>=◌, ◌>>◌,
}

pub data InboxMessageStatus : Type 0 where
  processing completed failed : InboxMessageStatus

pub record InboxMessage : Type 0 where
  pub id : ℕ
  pub message_key : ℕ
  pub consumer : String
  pub event_type : String
  pub payload : ℕ
  pub status : InboxMessageStatus
  pub attempts : ℕ
  pub last_error : Option String
  pub updated_at : ℕ

abbrev pub Messages : Type 0
Messages = List InboxMessage

-- The table has one row for a key (its unique index), so a row is saved by its key.
abbrev pub key_of : InboxMessage → ℕ
key_of m = m.message_key

abbrev pub row : ℕ → Messages → Option InboxMessage
row k table = find (λ m. m.message_key == k) table

pub record Delivery : Type 0 where
  pub new_id : ℕ
  pub now : ℕ
  pub consumer : String
  pub event_type : String
  pub key : ℕ
  pub payload : ℕ

-- The entity that is saved before the handler runs, by the row that was found; none if the call
-- returns false.
abbrev pub fresh_message : Delivery → InboxMessage
fresh_message d = record {
  id = d.new_id;
  message_key = d.key;
  consumer = d.consumer;
  event_type = d.event_type;
  payload = d.payload;
  status = processing;
  attempts = 1;
  last_error = none;
  updated_at = d.now;
}

abbrev pub reclaimed : Delivery → InboxMessage → InboxMessage
reclaimed d m = record m {
  status = processing;
  last_error = none;
  payload = d.payload;
  attempts = m.attempts + 1;
  updated_at = d.now;
}

-- The entity that a call is about to save, and whether `save` inserts it or updates its row.
pub record Claim : Type 0 where
  pub message : InboxMessage
  pub is_new : Bool

abbrev pub reclaim : Delivery → InboxMessage → InboxMessageStatus → Option Claim
reclaim d m failed = some (record { message = reclaimed d m; is_new = false })
reclaim d m processing = none
reclaim d m completed = none

-- What the call makes of the row that it found.
unfoldable pub claim : Delivery → Option InboxMessage → Option Claim
claim d none = some (record { message = fresh_message d; is_new = true })
claim d (some m) = reclaim d m m.status

-- The `save` before the handler: the unique index refuses a second row for a key.
unfoldable pub save_claim : Claim → Action Messages InboxMessage
save_claim c = do
  table ← get
  throw_if (c.is_new && is_some (row c.message.message_key table)) query_failed
  modify (save_row key_of c.message)
  pure c.message

-- The `try` and the `catch` after the handler, by the message of what it threw.
abbrev pub settled : ℕ → InboxMessage → Option String → InboxMessage
settled now m none = record m { status = completed; last_error = none; updated_at = now }
settled now m (some error) = record m { status = failed; last_error = some error; updated_at = now }

-- `return true` if the handler returned, `throw error` if it threw.
abbrev pub answer : Option String → Result Bool
answer none = return true
answer (some error) = raise handler_failed

unfoldable pub finish_message : ℕ → InboxMessage → Option String → Action Messages Bool
finish_message now m thrown table = (answer thrown, save_row key_of (settled now m thrown) table)

-- The whole of `executeOnce` where nothing comes between its steps. The handler may use the table.
abbrev pub run_handler :
    (Messages → Option String × Messages) → ℕ → InboxMessage → Action Messages Bool
run_handler handler now m table =
    let (thrown, after) = handler table in finish_message now m thrown after

abbrev pub run_claimed :
    (Messages → Option String × Messages) → ℕ → Option Claim → Action Messages Bool
run_claimed handler now none = pure false
run_claimed handler now (some c) = do m ← save_claim c; run_handler handler now m

unfoldable pub execute_once :
    Delivery → (Messages → Option String × Messages) → Action Messages Bool
unfolding claim save_claim finish_message
execute_once d handler = do table ← get; run_claimed handler d.now (claim d (row d.key table))

unfoldable pub reset_message : (now id : ℕ) → Action Messages InboxMessage
reset_message now k = do
  table ← get
  message ← require (find (λ m. m.id == k) table) not_found
  let reset : InboxMessage = record message {
    status = failed;
    attempts = 0;
    last_error = some "Reset by admin operator";
    updated_at = now;
  }
  modify (save_row key_of reset)
  pure reset

abbrev pub is_processing : InboxMessageStatus → Bool
is_processing processing = true
is_processing _ = false

-- `staleProcessingCount`: claimed five minutes ago or earlier, and not settled since.
unfoldable pub stale_processing_count : ℕ → Messages → ℕ
stale_processing_count now table =
    count (λ m. is_processing m.status && leb (m.updated_at + 300_000) now) table
