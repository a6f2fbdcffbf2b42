-- ===== src/Outbox/Runs.antt =====
-- Any sequence of requests to the outbox, at any times and with listeners that may throw.
use coes_platform.Base.{ℕ, ◌<◌, String, List, [], ◌∷◌, or_else, All}
use coes_platform.Outbox.{
  Events, Emit, PublishOptions, publish, dispatch_pending_batch, replay_event, mark_dead_letter,
}
use coes_platform.Outbox.Valid.{
  IsValid, publish-IsValid, dispatch_pending_batch-IsValid, replay_event-IsValid,
  mark_dead_letter-IsValid,
}

pub data Request (Payload : Type 0) : Type 0 where
  publication : (now new_id : ℕ) → String → Payload → PublishOptions → Request Payload
  batch : (now : ℕ) → Request Payload
  replay : (now event : ℕ) → Request Payload
  burial : (now event : ℕ) → Request Payload

module _ {Payload : Type 0} where
  -- A published event may be attempted at all.
  abbrev pub IsAdmitted : Request Payload → Type 0
  IsAdmitted (publication now new_id event_type payload options) =
      0 < or_else options.max_attempts 10
  IsAdmitted (batch now) = Unit
  IsAdmitted (replay now event) = Unit
  IsAdmitted (burial now event) = Unit

  unfoldable pub serve : Emit Payload → Request Payload → Events Payload → Events Payload
  serve emit (publication now new_id event_type payload options) events =
      (publish emit now new_id event_type payload options events).1
  serve emit (batch now) events = (dispatch_pending_batch emit now events).1
  serve emit (replay now event) events = (replay_event emit now event events).1
  serve emit (burial now event) events = (mark_dead_letter now event events).1

  -- The listeners may throw other things at each request.
  unfoldable pub serve_all : List (Emit Payload × Request Payload) → Events Payload → Events Payload
  unfolding serve
  serve_all [] events = events
  serve_all ((emit, r) ∷ rs) events = serve_all rs (serve emit r events)

  serve-AllValid :
      (emit : Emit Payload) (r : Request Payload) (events : Events Payload)
      → IsAdmitted r
      → All IsValid events
      → All IsValid (serve emit r events)
  unfolding serve
  serve-AllValid emit (publication now new_id event_type payload options) events admitted h =
      publish-IsValid emit now new_id event_type payload options events admitted h
  serve-AllValid emit (batch now) events admitted h =
      dispatch_pending_batch-IsValid emit now events h
  serve-AllValid emit (replay now event) events admitted h =
      replay_event-IsValid emit now event events h
  serve-AllValid emit (burial now event) events admitted h =
      mark_dead_letter-IsValid now event events h

  -- Whatever is published, dispatched in batches, replayed or buried, in any order and whatever the
  -- listeners throw at each request: if every outbox row was well formed (no more attempts than
  -- allowed, an attempt left while it is retried, a reason with every failure, a time with every
  -- delivery), every row still is, provided that each published event may be attempted at all.
  pub serve_requests-AllValid :
      (rs : List (Emit Payload × Request Payload)) (events : Events Payload)
      → All (λ r. IsAdmitted r.1) rs
      → All IsValid events
      → All IsValid (serve_all rs events)
  unfolding serve_all
  serve_requests-AllValid [] events admitted h = h
  serve_requests-AllValid ((emit, r) ∷ rs) events admitted h =
      serve_requests-AllValid rs (serve emit r events) admitted.1
        (serve-AllValid emit r events admitted.0 h)
