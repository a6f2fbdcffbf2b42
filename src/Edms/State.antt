-- ===== src/Edms/State.antt =====
-- The entities of documents, their versions, attachments and registrations (modules/edms/entities),
-- and the tables of edms.service.ts. A table has its newest row first.
use coes_platform.Base.{ℕ, Bool, String, Option, List, ◌++◌, find, ◌==◌}
use coes_platform.Base.Action.{Action, modify}

pub data DocumentStatus : Type 0 where
  draft registered in_workflow completed archived cancelled : DocumentStatus

pub data DocumentDirection : Type 0 where
  incoming outgoing internal : DocumentDirection

pub record DocumentType : Type 0 where
  pub id : ℕ
  pub series_code : String
  pub default_classification : ℕ
  pub retention_years : ℕ
  pub active : Bool

pub record Recipient : Type 0 where
  pub position_id : Option ℕ
  pub name : String

-- `<series>-<seq>/<year>`, kept by its parts.
pub record RegistrationNumber : Type 0 where
  pub series_code : String
  pub sequence_number : ℕ
  pub year : ℕ

pub record Document : Type 0 where
  pub id : ℕ
  pub type_id : ℕ
  pub status : DocumentStatus
  pub direction : DocumentDirection
  pub subject : String
  pub registration_number : Option RegistrationNumber
  pub registered_at : Option ℕ
  pub document_date : Option ℕ
  pub classification : ℕ
  pub sender_position_id : Option ℕ
  pub sender_name : Option String
  pub external_ref_number : Option String
  pub recipients : List Recipient
  pub body : Option String
  pub deadline : Option ℕ
  pub related_document_id : Option ℕ
  pub created_by_id : ℕ
  pub created_by_position_id : Option ℕ
  pub cancelled_at : Option ℕ
  pub cancel_reason : Option String
  pub archived_at : Option ℕ
  pub archived_by_id : Option ℕ
  pub retention_review_date : Option ℕ
  pub created_at : ℕ
  pub updated_at : ℕ

pub record DocumentVersion : Type 0 where
  pub document_id : ℕ
  pub version_number : ℕ
  pub subject : String
  pub body : Option String
  pub recipients : List Recipient
  pub author_id : ℕ
  pub change_reason : Option String

pub record DocumentAttachment : Type 0 where
  pub id : ℕ
  pub document_id : ℕ
  pub file_id : ℕ
  pub filename : String
  pub classification : ℕ
  pub uploaded_by_id : ℕ
  pub removed_at : Option ℕ

pub record RegistrationRecord : Type 0 where
  pub document_id : ℕ
  pub series_code : String
  pub sequence_number : ℕ
  pub year : ℕ
  pub registrar_id : ℕ
  pub registrar_position_id : Option ℕ

-- The audit events and the emitted events, in the order of the calls.
pub data EdmsEvent : Type 0 where
  auto_archived_audit document_created_audit document_created_event : (document : ℕ) → EdmsEvent
  document_updated_audit document_updated_event : (document : ℕ) → EdmsEvent
  document_registered_audit document_registered_event : ℕ → RegistrationNumber → EdmsEvent
  status_changed_audit status_changed_event :
      (document : ℕ) → DocumentStatus → DocumentStatus → EdmsEvent
  attachment_added attachment_removed : (attachment document : ℕ) → EdmsEvent

pub record DocumentStore : Type 0 where
  pub types : List DocumentType
  pub documents : List Document
  pub versions : List DocumentVersion
  pub attachments : List DocumentAttachment
  pub records : List RegistrationRecord
  pub log : List EdmsEvent

abbrev pub document_id : Document → ℕ
document_id d = d.id

abbrev pub note : List EdmsEvent → Action DocumentStore (Unit {0})
note events = modify (λ s. record s { log = s.log ++ events })

abbrev pub document_of : ℕ → DocumentStore → Option Document
document_of k s = find (λ d. d.id == k) s.documents

abbrev pub type_of : ℕ → DocumentStore → Option DocumentType
type_of k s = find (λ t. t.id == k) s.types
