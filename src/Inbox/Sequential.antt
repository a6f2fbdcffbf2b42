-- ===== src/Inbox/Sequential.antt =====
-- Calls of `executeOnce` one after the other.
use coes_platform.Base.{
  ℕ, String, true, false, Option, some, is_some, ◌&&◌, ◌≡◌, save_row, find-save_row, inl, inr,
  Option-cases, arith,
}
use coes_platform.Base.Action.{return}
use coes_platform.Inbox.{
  InboxMessage, Messages, Delivery, Claim, completed, key_of, row, claim, settled, execute_once,
}
use coes_platform.Inbox.Once.{row-key}

-- A claim is for the key of the delivery, and a new row is claimed only where there is none.
claim-key :
    (d : Delivery) (table : Messages) {c : Claim}
    → claim d (row d.key table) ≡ some c
    → (c.message.message_key ≡ d.key) × ((c.is_new && is_some (row d.key table)) ≡ false)
unfolding claim
claim-key d table e = elim (Option-cases (row d.key table)) [
  | inl missing ↦ ground arith
  | inr (x, found) ↦ let own = row-key table d.key found in ground arith
]

-- A message that is completed is not handled again: the call returns false and changes nothing.
execute_once-completed :
    (d : Delivery) (handler : Messages → Option String × Messages) (table : Messages)
    {m : InboxMessage}
    → row d.key table ≡ some m
    → m.status ≡ completed
    → execute_once d handler table ≡ (return false, table)
unfolding execute_once
execute_once-completed d handler table found done = ground arith

row-settled :
    (now k : ℕ) (m : InboxMessage) (thrown : Option String) (table : Messages)
    → m.message_key ≡ k
    → row k (save_row key_of (settled now m thrown) table) ≡ some (settled now m thrown)
row-settled now k m thrown table own =
    let saved = find-save_row key_of k (settled now m thrown) table in ground arith

-- After a call that returned true the message is completed, whatever the handler did to the table.
execute_once-true :
    (d : Delivery) (handler : Messages → Option String × Messages) (table : Messages)
    → (execute_once d handler table).0 ≡ return true
    → (m : InboxMessage) × (row d.key (execute_once d handler table).1 ≡ some m)
      × (m.status ≡ completed)
unfolding execute_once
execute_once-true d handler table ok = elim (Option-cases (claim d (row d.key table))) [
  | inl refused ↦ absurd (ground arith)
  | inr (c, claimed) ↦
      let (own, free) = claim-key d table claimed in
      let (thrown, after) = handler (save_row key_of c.message table) in
      let saved = row-settled d.now d.key c.message thrown after own in
      let passes : (c.is_new && is_some (row c.message.message_key table)) ≡ false = rw own free in
      (settled d.now c.message thrown, rw claimed (rw passes saved), ground arith)
]

-- Two calls for one message in turn: once the first has returned true, the second returns false and
-- changes nothing, whatever its handler does.
pub execute_once-twice :
    (d e : Delivery) (first second : Messages → Option String × Messages) (table : Messages)
    → e.key ≡ d.key
    → (execute_once d first table).0 ≡ return true
    → execute_once e second (execute_once d first table).1
      ≡ (return false, (execute_once d first table).1)
execute_once-twice d e first second table same ok =
    let (m, found, done) = execute_once-true d first table ok in
    execute_once-completed e second (execute_once d first table).1 {m = m} (rw same found) done
