-- ===== src/Tasks/Requests.antt =====
-- Requests for a later deadline.
use coes_platform.Base.{
  ℕ, ◌≤◌, String, ◌&&◌, Option, none, List, [], ◌∷◌, ◌≡◌, refl, ◌==◌, count, find, count-save_row,
  Option-cases, Bool-cases, inl, inr, arith,
}
use coes_platform.Org.Port.{CommandChain}
use coes_platform.Tasks.State.{TaskStore, Actor, DeadlineExtension, task_of, is_open}
use coes_platform.Tasks.Extensions.{
  Decision, extension_id, reviewed, request_deadline_extension, review_deadline_extension,
}

-- The open requests for a task.
abbrev pub open_requests : ℕ → List DeadlineExtension → ℕ
open_requests id = count (λ r. r.task_id == id && is_open r.status)

no_open :
    (id : ℕ) (rs : List DeadlineExtension)
    → find (λ r. r.task_id == id && is_open r.status) rs ≡ none
    → open_requests id rs ≡ 0
no_open id [] e = refl
no_open id (r ∷ rs) e = elim (Bool-cases (r.task_id == id && is_open r.status)) [
  | inl t ↦ absurd (ground arith)
  | inr f ↦ let rest = no_open id rs (rw f at e) in rw f rest
]

-- Filing a request keeps it so that a task has one open request at most.
pub request_deadline_extension-one_open :
    (k id requested_deadline : ℕ) (justification : String) (actor : Actor) (s : TaskStore)
    → open_requests k s.extensions ≤ 1
    → open_requests k
        (request_deadline_extension id requested_deadline justification actor s).1.extensions
      ≤ 1
unfolding request_deadline_extension
request_deadline_extension-one_open k id requested_deadline justification actor s h =
    elim (Option-cases (task_of id s)) [
      | inl missing ↦ rw missing h
      | inr (task, found) ↦
          elim (Option-cases (find (λ r. r.task_id == id && is_open r.status) s.extensions)) [
            | inl free ↦ let empty = no_open id s.extensions free in ground arith
            | inr (r, busy) ↦ ground arith
          ]
    ]

-- A review never adds an open request.
pub review_deadline_extension-open :
    (org : CommandChain) (k now id request : ℕ) (decision : Decision) (remarks : Option String)
    (actor : Actor) (s : TaskStore)
    → open_requests k
        (review_deadline_extension org now id request decision remarks actor s).1.extensions
      ≤ open_requests k s.extensions
unfolding review_deadline_extension
review_deadline_extension-open org k now id request decision remarks actor s =
    elim (Option-cases (task_of id s)) [
      | inl missing ↦ rw missing (omega arith)
      | inr (task, found) ↦
          elim (Option-cases
            (find (λ r. r.id == request && r.task_id == id && is_open r.status) s.extensions)) [
              | inl none_open ↦ ground arith
              | inr (r, open_) ↦
                  let fewer =
                    count-save_row extension_id (λ x. x.task_id == k && is_open x.status)
                      (reviewed now decision remarks actor r) s.extensions (ground arith) in
                  ground arith
            ]
    ]
