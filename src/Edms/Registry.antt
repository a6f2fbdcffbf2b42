-- ===== src/Edms/Registry.antt =====
-- edms.service.ts: the registration of a document. The transaction holds an advisory lock on the
-- series and the year, so it is one step.
use coes_platform.Base.{
  ℕ, ◌+◌, String, not, ◌&&◌, Option, none, some, List, [], ◌∷◌, ◌==◌, any, max, if◌then◌else◌, map,
  Bool,
}
use coes_platform.Base.Text.{same_text}
use coes_platform.Base.Action.{
  Action, bad_request, query_failed, get, modify, pure, require, throw_if, ◌>>=◌, ◌>>◌, not_found,
}
use coes_platform.Edms.State.{
  draft, registered, RegistrationNumber, Document, RegistrationRecord, DocumentStore,
  document_registered_audit, document_registered_event, note, document_of, type_of,
}
use coes_platform.Edms.Status.{same_status}
use coes_platform.Edms.Documents.{get_document, assert_author_access, given_or}

pub record RegisterDocumentDto : Type 0 where
  pub registrar_position_id : Option ℕ
  pub document_date : Option ℕ

abbrev pub in_series : String → ℕ → RegistrationRecord → Bool
in_series series year r = same_text r.series_code series && r.year == year

-- `COALESCE(MAX(sequence_number), 0)` over the records of a series and a year.
abbrev pub last_number : String → ℕ → List RegistrationRecord → ℕ
last_number series year [] = 0
last_number series year (r ∷ rs) =
    let rest = last_number series year rs in
    if in_series series year r then max r.sequence_number rest else rest

-- `update(id, fields)`: the row with the id is changed.
abbrev pub update_row : ℕ → (Document → Document) → List Document → List Document
update_row k f = map (λ d. if d.id == k then f d else d)

abbrev pub registered_as : ℕ → RegistrationNumber → Option ℕ → Document → Document
registered_as now number date d = record d {
  status = registered;
  registration_number = some number;
  registered_at = some now;
  document_date = date;
  updated_at = now;
}

abbrev pub registration_of : RegistrationNumber → ℕ → ℕ → Option ℕ → RegistrationRecord
registration_of number document registrar position = record {
  document_id = document;
  series_code = number.series_code;
  sequence_number = number.sequence_number;
  year = number.year;
  registrar_id = registrar;
  registrar_position_id = position;
}

-- The transaction. The unique index on the document refuses a second record for it, and nothing
-- else is written then.
unfoldable pub register_number :
    ℕ → ℕ → Document → String → RegisterDocumentDto → ℕ → Action DocumentStore RegistrationNumber
register_number now year d series dto actor = do
  s ← get
  let number : RegistrationNumber = record {
    series_code = series;
    sequence_number = last_number series year s.records + 1;
    year = year;
  }
  throw_if (any (λ r. r.document_id == d.id) s.records) query_failed
  modify (λ t. record t {
    records = registration_of number d.id actor dto.registrar_position_id ∷ t.records;
    documents =
        update_row d.id (registered_as now number (given_or dto.document_date d.document_date))
          t.documents;
  })
  pure number

-- `year` is the calendar year of the clock.
unfoldable pub register_document :
    ℕ → ℕ → ℕ → RegisterDocumentDto → ℕ → ℕ → Action DocumentStore Document
unfolding get_document register_number
register_document now year k dto actor clearance = do
  d ← get_document k actor none clearance
  throw_if (not (same_status d.status draft)) bad_request
  assert_author_access d actor
  s ← get
  doc_type ← require (type_of d.type_id s) not_found
  number ← register_number now year d doc_type.series_code dto actor
  note (document_registered_audit k number ∷ document_registered_event k number ∷ [])
  t ← get
  require (document_of k t) not_found
