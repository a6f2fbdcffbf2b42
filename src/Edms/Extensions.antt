-- ===== src/Edms/Extensions.antt =====
-- resolution.service.ts: requests for a later deadline, and their review.
use coes_platform.Base.{
  ℕ, ◌*◌, String, Bool, true, false, not, ◌&&◌, ◌||◌, Option, none, some, List, [], ◌∷◌, ◌==◌, any,
  select, leb, find, save_row,
}
use coes_platform.Base.Action.{
  Action, not_found, bad_request, forbidden, query_failed, get, modify, pure, require, throw_if,
  ◌>>=◌, ◌>>◌,
}
use coes_platform.Edms.Executors.{
  ExtensionStatus, pending, approved, denied, Resolution, ExecutorAssignment, ExtensionRequest,
  extension_requested, extension_approved, extension_denied, ResolutionStore, tell, assignment_of,
  save_assignment, is_completed, is_cancelled,
}
use coes_platform.Org.Port.{CommandChain}

pub record ExtensionDto : Type 0 where
  pub requested_deadline : String
  pub justification : String

abbrev pub extension_id : ExtensionRequest → ℕ
extension_id r = r.id

abbrev pub is_pending : ExtensionStatus → Bool
is_pending pending = true
is_pending approved = false
is_pending denied = false

abbrev pub is_open_for : ℕ → ExtensionRequest → Bool
is_open_for assignment r = r.assignment_id == assignment && is_pending r.status

-- The row that is saved: its column for the requested deadline is a DATE, which keeps the day.
abbrev pub new_extension :
    ℕ → ExecutorAssignment → (current requested : ℕ) → ExtensionDto → ℕ → ℕ → ExtensionRequest
new_extension new_id a current requested dto actor position = record {
  id = new_id;
  assignment_id = a.id;
  document_id = a.document_id;
  requester_position_id = position;
  requester_id = actor;
  current_deadline = current;
  requested_deadline = requested;
  justification = dto.justification;
  status = pending;
  reviewed_by_id = none;
  reviewed_by_position_id = none;
  review_remarks = none;
  reviewed_at = none;
}

-- `new Date(assignment.deadline)`: midnight of the day, in milliseconds from the earliest time of a
-- Date, from which the days are counted too.
abbrev pub midnight : ℕ → ℕ
midnight day = day * 86_400_000

-- `requestedDate <= currentDate`; an invalid date is NaN, and no comparison with it holds.
abbrev pub is_at_most : Option ℕ → ℕ → Bool
is_at_most none current = false
is_at_most (some time) current = leb time current

-- `new Date(text)` is a parameter, `none` where the date is invalid, and so is the day that the
-- DATE column makes of the text, `none` where the database refuses it.
module _ (new_date to_day : String → Option ℕ) where
  unfoldable pub request_extension :
      ℕ → ℕ → ExtensionDto → ℕ → ℕ → Action ResolutionStore ExtensionRequest
  request_extension new_id k dto actor position = do
    s ← get
    a ← require (assignment_of k s) not_found
    throw_if (not (a.position_id == position)) forbidden
    throw_if (is_completed a.status || is_cancelled a.status) bad_request
    current ← require a.deadline bad_request
    throw_if (is_at_most (new_date dto.requested_deadline) (midnight current)) bad_request
    throw_if (any (is_open_for k) s.extensions) bad_request
    requested ← require (to_day dto.requested_deadline) query_failed
    let saved = new_extension new_id a current requested dto actor position
    modify (λ t. record t { extensions = saved ∷ t.extensions })
    tell (extension_requested new_id ∷ [])
    pure saved

abbrev pub reviewed_as :
    ExtensionStatus → ℕ → Option String → ℕ → ℕ → ExtensionRequest → ExtensionRequest
reviewed_as status now remarks actor position r = record r {
  status = status;
  reviewed_by_id = some actor;
  reviewed_by_position_id = some position;
  review_remarks = remarks;
  reviewed_at = some now;
}

abbrev pub save_extension : ExtensionRequest → Action ResolutionStore (Unit {0})
save_extension r = modify (λ s. record s { extensions = save_row extension_id r s.extensions })

module _ (chain : CommandChain) where
  -- The resolution was issued from the position of the actor, or from one under it.
  abbrev may_review : ℕ → Resolution → Bool
  may_review position r =
      position == r.issuing_position_id || chain.is_subordinate_to r.issuing_position_id position

  -- How the approval and the denial begin: the request is pending, and the actor may review it.
  unfoldable pub reviewable : ℕ → ℕ → Action ResolutionStore (ExtensionRequest × ExecutorAssignment)
  reviewable k position = do
    s ← get
    r ← require (find (λ r. r.id == k) s.extensions) not_found
    throw_if (not (is_pending r.status)) bad_request
    a ← require (assignment_of r.assignment_id s) not_found
    resolution ← require (find (λ x. x.id == a.resolution_id) s.resolutions) not_found
    throw_if (not (may_review position resolution)) forbidden
    pure (r, a)

  unfoldable pub approve_extension :
      ℕ → ℕ → Option String → ℕ → ℕ → Action ResolutionStore ExtensionRequest
  unfolding reviewable
  approve_extension now k remarks actor position = do
    found ← reviewable k position
    let saved = reviewed_as approved now remarks actor position found.0
    save_extension saved
    save_assignment (record (found.1) { deadline = some saved.requested_deadline })
    tell (extension_approved k ∷ [])
    pure saved

  unfoldable pub deny_extension : ℕ → ℕ → String → ℕ → ℕ → Action ResolutionStore ExtensionRequest
  unfolding reviewable
  deny_extension now k remarks actor position = do
    found ← reviewable k position
    let saved = reviewed_as denied now (some remarks) actor position found.0
    save_extension saved
    tell (extension_denied k ∷ [])
    pure saved

unfoldable pub list_extensions : ℕ → ResolutionStore → List ExtensionRequest
list_extensions k s = select (λ r. r.assignment_id == k) s.extensions
