-- ===== src/Outbox/Valid.antt =====
-- The well-formedness of the rows of the outbox, kept by every operation.
use coes_platform.Base.{
  ℕ, ◌≤◌, ◌<◌, String, true, false, [], ◌∷◌, ◌≡◌, arith, is_some, leb, Bool-cases, inl, inr, All,
  All-find, All-save_row, All-select, All-take, All-both, All-map, select-All, select, find, ◌==◌,
  or_else, Option-cases,
}
use coes_platform.Base.Action.{for_each_inv}
use coes_platform.Outbox.{
  OutboxEvent, Events, Emit, PublishOptions, dispatched, failed, dead_letter, is_due, event_id,
  attempt, batch_limit, publish, insert_by_age, oldest_first, due_batch, dispatch_pending_batch,
  dispatch_round, replay_event, mark_dead_letter,
}

module _ {Payload : Type 0} where
  pub record IsValid (e : OutboxEvent Payload) : Type 0 where
    pub positive : 0 < e.max_attempts
    pub within : e.attempts ≤ e.max_attempts
    pub retry_left : e.status ≡ failed → e.attempts < e.max_attempts
    pub failed_why : e.status ≡ failed → is_some e.last_error ≡ true
    pub dead_why : e.status ≡ dead_letter → is_some e.last_error ≡ true
    pub delivered : e.status ≡ dispatched → is_some e.dispatched_at ≡ true
    pub delivered_clean : e.status ≡ dispatched → is_some e.last_error ≡ false

  -- An attempt at an event with an attempt left keeps it well formed.
  pub attempt-IsValid :
      (emit : Emit Payload) (now : ℕ) (e : OutboxEvent Payload)
      → e.attempts < e.max_attempts
      → 0 < e.max_attempts
      → IsValid (attempt emit now e)
  unfolding attempt
  attempt-IsValid emit now e left positive = ground arith

  module _ {κ} (P : OutboxEvent Payload → Type κ) where
    pub All-insert_by_age :
        (e : OutboxEvent Payload) (xs : Events Payload)
        → P e
        → All P xs
        → All P (insert_by_age e xs)
    unfolding insert_by_age
    All-insert_by_age e [] he h = (he, tt)
    All-insert_by_age e (x ∷ xs) he h = elim (Bool-cases (leb e.created_at x.created_at)) [
      | inl t ↦ rw t (he, h)
      | inr f ↦ rw f (h.0, All-insert_by_age e xs he h.1)
    ]

    pub All-oldest_first : (xs : Events Payload) → All P xs → All P (oldest_first xs)
    unfolding oldest_first
    All-oldest_first [] h = tt
    All-oldest_first (x ∷ xs) h =
        All-insert_by_age x (oldest_first xs) h.0 (All-oldest_first xs h.1)

  abbrev IsOpen : OutboxEvent Payload → Type 0
  IsOpen e = (e.attempts < e.max_attempts) × (0 < e.max_attempts)

  due-IsOpen : (now : ℕ) (e : OutboxEvent Payload) → IsValid e × (is_due now e ≡ true) → IsOpen e
  due-IsOpen now e h = ground arith

  due_batch-IsOpen :
      (now : ℕ) (events : Events Payload) → All IsValid events → All IsOpen (due_batch now events)
  unfolding due_batch
  due_batch-IsOpen now events h =
      let due = select (is_due now) events in
      let valid_due =
        All-both IsValid (λ e. is_due now e ≡ true) due (All-select IsValid (is_due now) events h)
          (select-All (is_due now) events) in
      All-take IsOpen batch_limit (oldest_first due)
        (All-oldest_first IsOpen due (All-map _ IsOpen (due-IsOpen now) due valid_due))

  -- A batch keeps every row well formed, whatever the listeners throw.
  pub dispatch_pending_batch-IsValid :
      (emit : Emit Payload) (now : ℕ) (events : Events Payload)
      → All IsValid events
      → All IsValid (dispatch_pending_batch emit now events).1
  unfolding dispatch_pending_batch
  dispatch_pending_batch-IsValid emit now events h =
      for_each_inv IsOpen (All IsValid) (dispatch_round emit now)
        (λ e s open_ p.
          All-save_row IsValid event_id (attempt emit now e) s
            (attempt-IsValid emit now e open_.0 open_.1) p)
        (due_batch now events) events (due_batch-IsOpen now events h) h

  -- Publishing keeps every row well formed, if the event may be attempted at all.
  pub publish-IsValid :
      (emit : Emit Payload) (now new_id : ℕ) (event_type : String) (payload : Payload)
      (options : PublishOptions) (events : Events Payload)
      → 0 < or_else options.max_attempts 10
      → All IsValid events
      → All IsValid (publish emit now new_id event_type payload options events).1
  unfolding publish
  publish-IsValid emit now new_id event_type payload options events positive h =
      All-save_row IsValid event_id _ _ (attempt-IsValid emit now _ positive positive)
        (All-save_row IsValid event_id _ events (ground arith) h)

  -- A replay keeps every row well formed, also when the event is not found.
  pub replay_event-IsValid :
      (emit : Emit Payload) (now k : ℕ) (events : Events Payload)
      → All IsValid events
      → All IsValid (replay_event emit now k events).1
  unfolding replay_event
  replay_event-IsValid emit now k events h = elim (Option-cases (find (λ e. e.id == k) events)) [
    | inl missing ↦ rw missing h
    | inr (e, found) ↦
        let valid = All-find IsValid (λ e. e.id == k) events h found in
        rw found (
          All-save_row IsValid event_id _ _
            (attempt-IsValid emit now _ valid.positive valid.positive)
            (All-save_row IsValid event_id _ events (ground arith) h))
  ]

  -- Marking an event as dead keeps every row well formed, also when the event is not found.
  pub mark_dead_letter-IsValid :
      (now k : ℕ) (events : Events Payload)
      → All IsValid events
      → All IsValid (mark_dead_letter now k events).1
  unfolding mark_dead_letter
  mark_dead_letter-IsValid now k events h = elim (Option-cases (find (λ e. e.id == k) events)) [
    | inl missing ↦ rw missing h
    | inr (e, found) ↦
        let valid = All-find IsValid (λ e. e.id == k) events h found in
        rw found (All-save_row IsValid event_id _ events (ground arith) h)
  ]
