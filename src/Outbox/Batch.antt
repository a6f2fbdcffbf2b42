-- ===== src/Outbox/Batch.antt =====
-- What a batch does to the rows: the due ones are attempted once, the others are left alone.
use coes_platform.Base.{
  ℕ, zero, suc, Bool, false, Option, some, [], ◌∷◌, ◌≡◌, ◌≢◌, sym, ◌∙◌, arith, leb, Bool-cases, inl,
  inr, All, All-select, All-take, find, ◌==◌, find-save_row, save_row, take, select, refl,
}
use mathlib.Core.List.{Memᴰ}
use coes_platform.Base.Action.{for_each}
use coes_platform.Outbox.{
  OutboxEvent, Events, Emit, is_due, batch_limit, event_id, attempt, dispatch_stored_event,
  dispatch_round, insert_by_age, oldest_first, due_batch, dispatch_pending_batch,
}
use coes_platform.Outbox.Valid.{All-insert_by_age, All-oldest_first}

module _ {Payload : Type 0} where
  abbrev row : ℕ → Events Payload → Option (OutboxEvent Payload)
  row k events = find (λ e. e.id == k) events

  attempt-id :
      (emit : Emit Payload) (now : ℕ) (e : OutboxEvent Payload) → (attempt emit now e).id ≡ e.id
  unfolding attempt
  attempt-id emit now e = ground arith

  -- No row of the list has the id.
  abbrev pub Without : ℕ → Events Payload → Type 0
  Without k = All (λ e. e.id ≢ k)

  loop-row_other :
      (emit : Emit Payload) (now k : ℕ) (batch events : Events Payload)
      → Without k batch
      → row k (for_each (dispatch_round emit now) batch events).1 ≡ row k events
  unfolding dispatch_stored_event
  loop-row_other emit now k [] events h = refl
  loop-row_other emit now k (e ∷ batch) events h =
      loop-row_other emit now k batch (save_row event_id (attempt emit now e) events) h.1
      ∙ find-save_row event_id k (attempt emit now e) events
      ∙ (let same = attempt-id emit now e in let other = h.0 in ground arith)

  batch-All :
      (P : OutboxEvent Payload → Type 0) (now : ℕ) (events : Events Payload)
      → All P (select (is_due now) events)
      → All P (due_batch now events)
  unfolding due_batch
  batch-All P now events h =
      let due = select (is_due now) events in
      All-take P batch_limit (oldest_first due) (All-oldest_first P due h)

  not_due-Without :
      (now k : ℕ) (events : Events Payload)
      → All (λ e. e.id ≡ k → is_due now e ≡ false) events
      → Without k (select (is_due now) events)
  not_due-Without now k [] h = tt
  not_due-Without now k (e ∷ es) h = elim (Bool-cases (is_due now e)) [
    | inl t ↦ rw t ((λ same. let off = h.0 same in ground arith), not_due-Without now k es h.1)
    | inr f ↦ rw f (not_due-Without now k es h.1)
  ]

  -- A batch leaves alone every row that is not due: dispatched and dead events, events whose
  -- backoff is not over, and events with no attempt left.
  pub dispatch_pending_batch-not_due :
      (emit : Emit Payload) (now k : ℕ) (events : Events Payload)
      → All (λ e. e.id ≡ k → is_due now e ≡ false) events
      → find (λ e. e.id == k) (dispatch_pending_batch emit now events).1
        ≡ find (λ e. e.id == k) events
  unfolding dispatch_pending_batch
  dispatch_pending_batch-not_due emit now k events h =
      loop-row_other emit now k (due_batch now events) events
        (batch-All (λ e. e.id ≢ k) now events (not_due-Without now k events h))

  -- The ids of the rows are pairwise different.
  abbrev pub IsDistinct : Events Payload → Type 0
  IsDistinct [] = Unit
  IsDistinct (e ∷ es) = Without e.id es × IsDistinct es

  loop-row_own :
      (emit : Emit Payload) (now : ℕ) (batch events : Events Payload) {e : OutboxEvent Payload}
      → IsDistinct batch
      → Memᴰ e batch
      → row e.id (for_each (dispatch_round emit now) batch events).1 ≡ some (attempt emit now e)
  unfolding dispatch_stored_event
  loop-row_own emit now [] events d m = elim m [ ]
  loop-row_own emit now (x ∷ batch) events {e} d (Memᴰ.head p) = rw p (
      loop-row_other emit now x.id batch (save_row event_id (attempt emit now x) events) d.0
      ∙ find-save_row event_id x.id (attempt emit now x) events
      ∙ (let same = attempt-id emit now x in ground arith))
  loop-row_own emit now (x ∷ batch) events {e} d (Memᴰ.tail m) =
      loop-row_own emit now batch (save_row event_id (attempt emit now x) events) d.1 m

  IsDistinct-select :
      (p : OutboxEvent Payload → Bool) (es : Events Payload)
      → IsDistinct es
      → IsDistinct (select p es)
  IsDistinct-select p [] d = tt
  IsDistinct-select p (e ∷ es) d = elim (Bool-cases (p e)) [
    | inl t ↦ rw t (All-select _ p es d.0, IsDistinct-select p es d.1)
    | inr f ↦ rw f (IsDistinct-select p es d.1)
  ]

  IsDistinct-insert_by_age :
      (e : OutboxEvent Payload) (es : Events Payload)
      → Without e.id es
      → IsDistinct es
      → IsDistinct (insert_by_age e es)
  unfolding insert_by_age
  IsDistinct-insert_by_age e [] w d = (tt, tt)
  IsDistinct-insert_by_age e (x ∷ es) w d = elim (Bool-cases (leb e.created_at x.created_at)) [
    | inl t ↦ rw t (w, d)
    | inr f ↦ rw f (
      All-insert_by_age (λ y. y.id ≢ x.id) e es (λ q. w.0 (sym q)) d.0,
      IsDistinct-insert_by_age e es w.1 d.1,
    )
  ]

  IsDistinct-oldest_first : (es : Events Payload) → IsDistinct es → IsDistinct (oldest_first es)
  unfolding oldest_first
  IsDistinct-oldest_first [] d = tt
  IsDistinct-oldest_first (e ∷ es) d =
      IsDistinct-insert_by_age e (oldest_first es) (All-oldest_first (λ y. y.id ≢ e.id) es d.0)
        (IsDistinct-oldest_first es d.1)

  IsDistinct-take : (n : ℕ) (es : Events Payload) → IsDistinct es → IsDistinct (take n es)
  IsDistinct-take zero es d = tt
  IsDistinct-take (suc n) [] d = tt
  IsDistinct-take (suc n) (e ∷ es) d = (All-take _ n es d.0, IsDistinct-take n es d.1)

  IsDistinct-due_batch :
      (now : ℕ) (events : Events Payload) → IsDistinct events → IsDistinct (due_batch now events)
  unfolding due_batch
  IsDistinct-due_batch now events d =
      let due = select (is_due now) events in
      IsDistinct-take batch_limit (oldest_first due)
        (IsDistinct-oldest_first due (IsDistinct-select (is_due now) events d))

  -- In a table with distinct ids each event of the batch is attempted exactly once: afterwards its
  -- row is that of one attempt.
  pub dispatch_pending_batch-due :
      (emit : Emit Payload) (now : ℕ) (events : Events Payload) {e : OutboxEvent Payload}
      → IsDistinct events
      → Memᴰ e (due_batch now events)
      → find (λ x. x.id == e.id) (dispatch_pending_batch emit now events).1
        ≡ some (attempt emit now e)
  unfolding dispatch_pending_batch
  dispatch_pending_batch-due emit now events d m =
      loop-row_own emit now (due_batch now events) events (IsDistinct-due_batch now events d) m
