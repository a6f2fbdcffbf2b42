-- ===== src/Inbox/Once.antt =====
-- Any interleaving of the steps of deliveries: as long as no handler throws, each message is handled
-- at most once. The store is joined by the claims that were looked up and not yet saved, and by the
-- calls whose handler runs, each with the entity that it holds.
use coes_platform.Base.{
  ℕ, suc, ◌+◌, ◌≤◌, String, Bool, true, false, Option, none, some, List, [], ◌∷◌, ◌≡◌, ◌↔◌, subst,
  ◌==◌, if◌then◌else◌, find, count, find-save_row, inl, inr, Bool-cases, Option-cases, arith, All,
  All-find, All-save_row, find-passes, refl,
}
use coes_platform.Base.Action.{Result, return, raise}
use coes_platform.Inbox.{
  InboxMessage, InboxMessageStatus, Messages, Delivery, Claim, processing, completed, failed,
  key_of, row, claim, save_claim, finish_message, settled,
}

pub record World : Type 0 where
  pub table : Messages
  pub claims : List Claim
  pub running : List InboxMessage
  pub handled : List ℕ

pub data Op : Type 0 where
  look : Delivery → Op
  write : (key : ℕ) → Op
  settle : (now key : ℕ) → (thrown : Option String) → Op

-- Whether the handler returned.
abbrev returned : Option String → Bool
returned none = true
returned (some error) = false

abbrev looked : Option Claim → List Claim → List Claim
looked none claims = claims
looked (some c) claims = c ∷ claims

-- The first claim for the key is saved, or given up.
abbrev drop_claim : ℕ → List Claim → List Claim
drop_claim k [] = []
drop_claim k (c ∷ cs) =
    let rest = drop_claim k cs in if c.message.message_key == k then cs else c ∷ rest

abbrev wrote : World → Result InboxMessage × Messages → World
wrote w (return m, table) = record w { table = table; running = m ∷ w.running }
wrote w (raise e, table) = record w { table = table }

abbrev write_found : World → ℕ → Option Claim → World
write_found w k none = w
write_found w k (some c) =
    wrote (record w { claims = drop_claim k w.claims }) (save_claim c w.table)

abbrev stop : ℕ → List InboxMessage → List InboxMessage
stop k [] = []
stop k (m ∷ ms) = let rest = stop k ms in if m.message_key == k then ms else m ∷ rest

abbrev note_handled : ℕ → Bool → List ℕ → List ℕ
note_handled k true handled = k ∷ handled
note_handled k false handled = handled

abbrev settle_found : World → (now key : ℕ) → Option String → Option InboxMessage → World
settle_found w now k thrown none = w
settle_found w now k thrown (some m) = record w {
  table = (finish_message now m thrown w.table).1;
  running = stop k w.running;
  handled = note_handled k (returned thrown) w.handled;
}

unfoldable pub step : World → Op → World
step w (look d) = record w { claims = looked (claim d (row d.key w.table)) w.claims }
step w (write k) = write_found w k (find (λ c. c.message.message_key == k) w.claims)
step w (settle now k thrown) =
    settle_found w now k thrown (find (λ m. m.message_key == k) w.running)

unfoldable pub run : World → List Op → World
unfolding step
run w [] = w
run w (op ∷ ops) = run (step w op) ops

abbrev pub in_flight : ℕ → World → ℕ
in_flight k w = count (λ m. m.message_key == k) w.running

abbrev pub times_handled : ℕ → World → ℕ
times_handled k w = count (λ j. j == k) w.handled

-- What the row of a key says of the handlers for it, in flight and returned.
abbrev OfStatus : InboxMessageStatus → ℕ → ℕ → Type 0
OfStatus processing flight done = (flight ≡ 1) × (done ≡ 0)
OfStatus completed flight done = (flight ≡ 0) × (done ≡ 1)
OfStatus failed flight done = (flight ≡ 0) × (done ≡ 0)

abbrev OfRow : Option InboxMessage → ℕ → ℕ → Type 0
OfRow none flight done = (flight ≡ 0) × (done ≡ 0)
OfRow (some m) flight done = OfStatus m.status flight done

abbrev is_failed : InboxMessageStatus → Bool
is_failed failed = true
is_failed _ = false

-- The claim is for a new row.
abbrev IsInsert : Claim → Type 0
IsInsert c = (c.is_new ≡ true) × (c.message.status ≡ processing)

-- No message has failed, so every claim is for a new row; and the row of the key says of its
-- handlers what is the case.
pub record IsTracked (k : ℕ) (w : World) : Type 0 where
  pub own : OfRow (row k w.table) (in_flight k w) (times_handled k w)
  pub sound : All (λ m. is_failed m.status ≡ false) w.table
  pub fresh : All IsInsert w.claims

abbrev pub is_calm : Op → Bool
is_calm (look d) = true
is_calm (write k) = true
is_calm (settle now k none) = true
is_calm (settle now k (some error)) = false

pub row-key :
    (table : Messages) (k : ℕ) {m : InboxMessage} → row k table ≡ some m → m.message_key ≡ k
row-key [] k e = cc
row-key (x ∷ xs) k {m} e = elim (Bool-cases (x.message_key == k)) [
  | inl t ↦
      let same : x ≡ m = ground arith in
      subst (λ (y : InboxMessage). y.message_key ≡ k) same (ground arith)
  | inr f ↦ row-key xs k (rw f at e)
]

look-IsTracked : (k : ℕ) (w : World) (d : Delivery) → IsTracked k w → IsTracked k (step w (look d))
unfolding step claim
look-IsTracked k w d h = elim (Option-cases (row d.key w.table)) [
  | inl missing ↦
      rw missing (record { own = h.own; sound = h.sound; fresh = ((refl, refl), h.fresh) })
  | inr (m, found) ↦
      let whole = All-find (λ x. is_failed x.status ≡ false) _ w.table h.sound found in ground arith
]

drop_claim-All : (k : ℕ) (cs : List Claim) → All IsInsert cs → All IsInsert (drop_claim k cs)
drop_claim-All k [] h = tt
drop_claim-All k (c ∷ cs) h = let rest = drop_claim-All k cs h.1 in ground arith

write-IsTracked : (k : ℕ) (w : World) (j : ℕ) → IsTracked k w → IsTracked k (step w (write j))
unfolding step save_claim
write-IsTracked k w j h = elim (Option-cases (find (λ c. c.message.message_key == j) w.claims)) [
  | inl missing ↦ rw missing h
  | inr (c, found) ↦
      let own = find-passes (λ x. x.message.message_key == j) w.claims found in
      let insert = All-find IsInsert _ w.claims h.fresh found in
      let left = drop_claim-All j w.claims h.fresh in
      elim (Option-cases (row c.message.message_key w.table)) [
        | inl free ↦
            let sound =
              All-save_row (λ m. is_failed m.status ≡ false) key_of c.message w.table (ground arith)
                h.sound in
            let saved = find-save_row key_of k c.message w.table in ground arith
        | inr (m, taken) ↦ ground arith
      ]
]

count-stop :
    (k j : ℕ) (ms : List InboxMessage) {m : InboxMessage}
    → find (λ x. x.message_key == j) ms ≡ some m
    → count (λ x. x.message_key == k) ms ≡ (
        if j == k
        then suc (count (λ x. x.message_key == k) (stop j ms))
        else count (λ x. x.message_key == k) (stop j ms))
count-stop k j [] e = cc
count-stop k j (x ∷ xs) e = elim (Bool-cases (x.message_key == j)) [
  | inl t ↦ ground arith
  | inr f ↦ let rest = count-stop k j xs (rw f at e) in ground arith
]

settle-IsTracked :
    (k : ℕ) (w : World) (now j : ℕ) → IsTracked k w → IsTracked k (step w (settle now j none))
unfolding step finish_message
settle-IsTracked k w now j h = elim (Option-cases (find (λ m. m.message_key == j) w.running)) [
  | inl missing ↦ rw missing h
  | inr (m, found) ↦
      let own = row-key w.running j found in
      let sound =
        All-save_row (λ x. is_failed x.status ≡ false) key_of (settled now m none) w.table refl
          h.sound in
      ground
        (arith, find-save_row key_of k (settled now m none) w.table, count-stop k j w.running found)
]

-- No handler of the run throws.
abbrev pub IsCalm : List Op → Type 0
IsCalm ops = All (λ op. is_calm op ≡ true) ops

run-IsTracked :
    (k : ℕ) (ops : List Op) (w : World) → IsCalm ops → IsTracked k w → IsTracked k (run w ops)
unfolding run
run-IsTracked k [] w calm h = h
run-IsTracked k (look d ∷ ops) w calm h = run-IsTracked k ops _ calm.1 (look-IsTracked k w d h)
run-IsTracked k (write j ∷ ops) w calm h = run-IsTracked k ops _ calm.1 (write-IsTracked k w j h)
run-IsTracked k (settle now j none ∷ ops) w calm h =
    run-IsTracked k ops _ calm.1 (settle-IsTracked k w now j h)
run-IsTracked k (settle now j (some error) ∷ ops) w calm h = let c = calm.0 in cc

OfRow-once : (o : Option InboxMessage) (flight done : ℕ) → OfRow o flight done → flight + done ≤ 1
OfRow-once o flight done h = ground arith

-- Whatever deliveries arrive, and however their look-ups, their writes and the ends of their handlers
-- are interleaved, as long as no handler throws, from a store that tracks the message: the handlers
-- of the message that are running or have returned are one at most.
pub run-handled_once :
    (k : ℕ) (ops : List Op) (w : World)
    → IsCalm ops
    → IsTracked k w
    → in_flight k (run w ops) + times_handled k (run w ops) ≤ 1
run-handled_once k ops w calm h =
    OfRow-once (row k (run w ops).table) (in_flight k (run w ops)) (times_handled k (run w ops))
      (run-IsTracked k ops w calm h).own

-- In the same runs, in which no handler throws and which start from a store that tracks the message
-- and has no failed row, the row of a message is marked as completed exactly when its handler has
-- returned one time.
pub run-completed :
    (k : ℕ) (ops : List Op) (w : World) {m : InboxMessage}
    → IsCalm ops
    → IsTracked k w
    → row k (run w ops).table ≡ some m
    → (m.status ≡ completed) ↔ (times_handled k (run w ops) ≡ 1)
run-completed k ops w {m} calm h found =
    let tracked = (run-IsTracked k ops w calm h).own in
    let own : OfRow (some m) (in_flight k (run w ops)) (times_handled k (run w ops)) =
      subst (λ o. OfRow o (in_flight k (run w ops)) (times_handled k (run w ops))) found tracked in
    (λ e. ground arith, λ e. ground arith)
