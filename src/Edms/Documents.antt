-- ===== src/Edms/Documents.antt =====
-- edms.service.ts: reading, creating and changing documents. The clock and the new ids are
-- arguments.
use coes_platform.Base.{
  ℕ, ◌+◌, String, Bool, false, not, ◌&&◌, ◌||◌, Option, none, some, List, [], ◌∷◌, ◌==◌, ltb, leb,
  or_else, is_some, is_id, any, select, find, save_row, if◌then◌else◌, max,
}
use coes_platform.Base.Action.{
  Action, not_found, bad_request, forbidden, get, modify, pure, require, throw_if, ◌>>=◌, ◌>>◌,
}
use coes_platform.Edms.State.{
  draft, DocumentDirection, DocumentType, Recipient, Document, DocumentVersion, DocumentAttachment,
  DocumentStore, document_created_audit, document_created_event, document_updated_audit,
  document_updated_event, document_id, note, document_of,
}
use coes_platform.Edms.Status.{same_status}

pub record CreateDocumentDto : Type 0 where
  pub type_id : ℕ
  pub direction : DocumentDirection
  pub subject : String
  pub classification : Option ℕ
  pub sender_position_id : Option ℕ
  pub sender_name : Option String
  pub external_ref_number : Option String
  pub recipients : Option (List Recipient)
  pub body : Option String
  pub deadline : Option ℕ
  pub related_document_id : Option ℕ
  pub document_date : Option ℕ

pub record UpdateDocumentDto : Type 0 where
  pub subject : Option String
  pub classification : Option ℕ
  pub sender_position_id : Option ℕ
  pub sender_name : Option String
  pub external_ref_number : Option String
  pub recipients : Option (List Recipient)
  pub body : Option String
  pub deadline : Option ℕ
  pub related_document_id : Option ℕ
  pub document_date : Option ℕ
  pub change_reason : Option String

abbrev pub new_document : ℕ → ℕ → CreateDocumentDto → DocumentType → ℕ → Option ℕ → Document
new_document now new_id dto doc_type actor position = record {
  id = new_id;
  type_id = dto.type_id;
  status = draft;
  direction = dto.direction;
  subject = dto.subject;
  registration_number = none;
  registered_at = none;
  document_date = dto.document_date;
  classification = or_else dto.classification doc_type.default_classification;
  sender_position_id = dto.sender_position_id;
  sender_name = dto.sender_name;
  external_ref_number = dto.external_ref_number;
  recipients = or_else dto.recipients [];
  body = dto.body;
  deadline = dto.deadline;
  related_document_id = dto.related_document_id;
  created_by_id = actor;
  created_by_position_id = position;
  cancelled_at = none;
  cancel_reason = none;
  archived_at = none;
  archived_by_id = none;
  retention_review_date = none;
  created_at = now;
  updated_at = now;
}

-- The snapshot of a document.
abbrev pub snapshot : ℕ → Document → ℕ → Option String → DocumentVersion
snapshot number d author reason = record {
  document_id = d.id;
  version_number = number;
  subject = d.subject;
  body = d.body;
  recipients = d.recipients;
  author_id = author;
  change_reason = reason;
}

abbrev pub add_version : DocumentVersion → Action DocumentStore (Unit {0})
add_version v = modify (λ s. record s { versions = v ∷ s.versions })

unfoldable pub create_document :
    ℕ → ℕ → CreateDocumentDto → ℕ → Option ℕ → Action DocumentStore Document
create_document now new_id dto actor position = do
  s ← get
  doc_type ← require (find (λ t. t.id == dto.type_id && t.active) s.types) not_found
  let saved = new_document now new_id dto doc_type actor position
  modify (λ t. record t { documents = saved ∷ t.documents })
  add_version (snapshot 1 saved actor none)
  note (document_created_audit new_id ∷ document_created_event new_id ∷ [])
  pure saved

-- assertDocumentVisibility, and its copy in resolution.service.ts.
abbrev is_recipient : List Recipient → ℕ → Bool
is_recipient recipients position = any (λ r. is_id r.position_id position) recipients

abbrev pub is_visible_at : Document → Option ℕ → Bool
is_visible_at d none = false
is_visible_at d (some position) =
    is_id d.created_by_position_id position
    || (is_id d.sender_position_id position || is_recipient d.recipients position)

abbrev pub is_visible : Document → ℕ → Option ℕ → Bool
is_visible d actor position = d.created_by_id == actor || is_visible_at d position

-- getDocument, without the relations that it loads.
unfoldable pub get_document : ℕ → ℕ → Option ℕ → ℕ → Action DocumentStore Document
get_document k actor position clearance = do
  s ← get
  d ← require (document_of k s) not_found
  throw_if (ltb clearance d.classification) forbidden
  throw_if (not (is_visible d actor position)) forbidden
  pure d

-- The attachments that getDocument shows.
unfoldable pub shown_attachments : ℕ → ℕ → DocumentStore → List DocumentAttachment
shown_attachments k clearance s =
    select
      (λ a. a.document_id == k && (not (is_some a.removed_at) && leb a.classification clearance))
      s.attachments

-- assertAuthorAccess.
abbrev pub assert_author_access : Document → ℕ → Action DocumentStore (Unit {0})
assert_author_access d actor = throw_if (not (d.created_by_id == actor)) forbidden

-- `dto.field ?? doc.field` on a nullable column.
abbrev pub given_or {ℓ} : {A : Type ℓ} → Option A → Option A → Option A
given_or none old = old
given_or (some a) old = some a

abbrev pub edited : ℕ → UpdateDocumentDto → Document → Document
edited now dto d = record d {
  subject = or_else dto.subject d.subject;
  classification = or_else dto.classification d.classification;
  sender_position_id = given_or dto.sender_position_id d.sender_position_id;
  sender_name = given_or dto.sender_name d.sender_name;
  external_ref_number = given_or dto.external_ref_number d.external_ref_number;
  recipients = or_else dto.recipients d.recipients;
  body = given_or dto.body d.body;
  deadline = given_or dto.deadline d.deadline;
  related_document_id = given_or dto.related_document_id d.related_document_id;
  document_date = given_or dto.document_date d.document_date;
  updated_at = now;
}

-- The greatest version number of a document, or 0.
abbrev pub last_version : ℕ → List DocumentVersion → ℕ
last_version k [] = 0
last_version k (v ∷ vs) =
    let rest = last_version k vs in if v.document_id == k then max v.version_number rest else rest

abbrev pub save_document : Document → Action DocumentStore (Unit {0})
save_document d = modify (λ s. record s { documents = save_row document_id d s.documents })

unfoldable pub update_document : ℕ → ℕ → UpdateDocumentDto → ℕ → ℕ → Action DocumentStore Document
unfolding get_document
update_document now k dto actor clearance = do
  d ← get_document k actor none clearance
  throw_if (not (same_status d.status draft)) bad_request
  assert_author_access d actor
  let saved = edited now dto d
  save_document saved
  s ← get
  add_version (snapshot (last_version k s.versions + 1) saved actor dto.change_reason)
  note (document_updated_audit k ∷ document_updated_event k ∷ [])
  pure saved
