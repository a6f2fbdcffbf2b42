-- ===== src/Outbox/Retry.antt =====
-- Backoff, retries and the dead letter.
use coes_platform.Base.{
  ℕ, ◌+◌, String, some, List, [], ◌∷◌, ◌≡◌, arith, is_some, leb, ltb, if◌then◌else◌, length, ◌&&◌,
}
use coes_platform.Outbox.{
  OutboxEvent, OutboxEventStatus, Emit, failed, dead_letter, is_due, attempt, compute_backoff_ms,
}

-- The status that a failing event has, by the number of its attempts.
abbrev pub failing_status : ℕ → ℕ → OutboxEventStatus
failing_status made allowed = if leb allowed made then dead_letter else failed

module _ {Payload : Type 0} (emit : Emit Payload) where
  -- The attempts made at the given times, one after the other.
  pub attempts_at : List ℕ → OutboxEvent Payload → OutboxEvent Payload
  attempts_at [] e = e
  attempts_at (now ∷ times) e = attempts_at times (attempt emit now e)

  abbrev pub AlwaysFails : Type 0
  AlwaysFails = (now : ℕ) (t : String) (p : Payload) → (m : String) × (emit now t p ≡ some m)

  attempt-failing :
      AlwaysFails
      → (now : ℕ) (e : OutboxEvent Payload)
      → ((attempt emit now e).attempts ≡ e.attempts + 1)
        × ((attempt emit now e).max_attempts ≡ e.max_attempts)
        × ((attempt emit now e).status ≡ failing_status (e.attempts + 1) e.max_attempts)
  unfolding attempt
  attempt-failing fails now e = let (m, thrown) = fails now e.event_type e.payload in ground arith

  -- While the listeners keep failing, each attempt is counted, and the event becomes a dead letter
  -- exactly when the attempts made reach the attempts allowed.
  pub attempts_at-failing :
      AlwaysFails
      → (now : ℕ) (times : List ℕ) (e : OutboxEvent Payload)
      → let r = attempts_at (now ∷ times) e in
        (r.attempts ≡ e.attempts + length (now ∷ times))
        × (r.status ≡ failing_status (e.attempts + length (now ∷ times)) e.max_attempts)
  unfolding attempts_at
  attempts_at-failing fails now [] e = let once = attempt-failing fails now e in ground arith
  attempts_at-failing fails now (later ∷ times) e =
      let (made, allowed, status) = attempt-failing fails now e in
      let (count, final) = attempts_at-failing fails later times (attempt emit now e) in
      ground arith

  -- An event that was attempted is due again exactly when the attempt failed, its backoff is over
  -- and an attempt is left.
  pub attempt-due :
      (now later : ℕ) (e : OutboxEvent Payload)
      → is_due later (attempt emit now e) ≡ (
          is_some (emit now e.event_type e.payload)
          && (leb (now + compute_backoff_ms (e.attempts + 1)) later
              && ltb (e.attempts + 1) e.max_attempts))
  unfolding attempt
  attempt-due now later e = ground arith
