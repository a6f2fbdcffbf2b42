-- ===== src/Edms/Samples.antt =====
-- A small registry of documents and a resolution on one of them.
use coes_platform.Base.Text.{same_text}
use coes_platform.Base.{
  false, map, if◌then◌else◌, ◌+◌, String, Option, All, ℕ, true, none, some, List, [], ◌∷◌, ◌≡◌,
  refl, arith,
}
use coes_platform.Base.Action.{return, raise, query_failed}
use coes_platform.Org.Port.{command_chain_of}
use coes_platform.Org.Samples.{officers, officers-IsGrounded}
use coes_platform.Edms.State.{
  DocumentType, Document, DocumentStore, internal, registered, completed, in_workflow,
}
use coes_platform.Edms.Status.{may_become, document_transitions}
use coes_platform.Edms.Documents.{
  CreateDocumentDto, UpdateDocumentDto, new_document, snapshot, get_document,
}
use coes_platform.Edms.Registry.{RegisterDocumentDto, register_document, register_number}
use coes_platform.Edms.Lifecycle.{auto_archive_completed_documents, transition_document}
use coes_platform.Edms.Executors.{ResolutionStore}
use coes_platform.Edms.Issuing.{IssueResolutionDto, issue_resolution}
use coes_platform.Edms.Extensions.{midnight, request_extension}
use coes_platform.Edms.Numbering.{IsGapless, register_document-IsGapless}
use coes_platform.Edms.Valid.{IsSound}
use coes_platform.Edms.Runs.{update, register, serve, here, served, Reaches-IsSound}
use coes_platform.Edms.Orders.{IsOrderly}
use coes_platform.Edms.Listing.{ListDocumentsDto, list_documents, list_documents-All}
use coes_platform.Edms.Proceedings
use coes_platform.Edms.Proceedings.{
  serve_all, serve_all-IsOrderly, auto_archive_completed_documents-refused,
}

abbrev letter : DocumentType
letter = record {
  id = 1;
  series_code = "A";
  default_classification = 1;
  retention_years = 5;
  active = true;
}

abbrev dto : CreateDocumentDto
dto = record {
  type_id = 1;
  direction = internal;
  subject = "order";
  classification = none;
  sender_position_id = none;
  sender_name = none;
  external_ref_number = none;
  recipients = none;
  body = none;
  deadline = none;
  related_document_id = none;
  document_date = none;
}

-- Written by user 7.
abbrev order : Document
order = new_document 0 3 dto letter 7 none

abbrev registry : DocumentStore
registry = record {
  types = letter ∷ [];
  documents = order ∷ [];
  versions = snapshot 1 order 7 none ∷ [];
  attachments = [];
  records =
      record {
        document_id = 2;
        series_code = "A";
        sequence_number = 1;
        year = 2026;
        registrar_id = 7;
        registrar_position_id = none;
      }
      ∷ [];
  log = [];
}

abbrev to_register : RegisterDocumentDto
to_register = record { registrar_position_id = none; document_date = none }

abbrev numbered : Document
numbered = record order {
  status = registered;
  registration_number = some (record { series_code = "A"; sequence_number = 2; year = 2026 });
  registered_at = some 9;
  updated_at = 9;
}

registered_second : (register_document 9 2026 3 to_register 7 1 registry).0 ≡ return numbered
unfolding register_document register_number get_document
registered_second = refl

-- The status of a draft can be set to REGISTERED without a registration number.
unnumbered :
    (transition_document
      (λ now years. now)
      9
      3
      (record { target_status = registered; reason = none })
      7
      1
      registry).0
    ≡ return (record order { status = registered; updated_at = 9 })
unfolding transition_document get_document may_become document_transitions
unnumbered = refl

abbrev gapless : IsGapless ([])
gapless series year = tt

abbrev unregistered : DocumentStore
unregistered = record registry { records = [] }

register_document-IsGapless_example :
    IsGapless (register_document 9 2026 3 to_register 7 1 unregistered).1.records
register_document-IsGapless_example =
    register_document-IsGapless 9 2026 3 to_register 7 1 unregistered gapless

registry-IsSound : IsSound registry
registry-IsSound =
    ((tt, tt), ((refl, tt), ((snapshot 1 order 7 none, refl, refl, refl, refl, refl), tt)))

abbrev new_subject : UpdateDocumentDto
new_subject = record {
  subject = some "new order";
  classification = none;
  sender_position_id = none;
  sender_name = none;
  external_ref_number = none;
  recipients = none;
  body = none;
  deadline = none;
  related_document_id = none;
  document_date = none;
  change_reason = none;
}

abbrev same_day : ℕ → ℕ → ℕ
same_day now years = now

abbrev filed : DocumentStore
unfolding serve
filed =
    serve same_day (register 5 2026 3 to_register 7 1)
      (serve same_day (update 4 3 new_subject 7 1) registry)

Reaches-IsSound_example : IsSound filed
unfolding filed
Reaches-IsSound_example =
    Reaches-IsSound same_day
      (served (update 4 3 new_subject 7 1) {s = registry} tt
        (served (register 5 2026 3 to_register 7 1) tt here))
      registry-IsSound

abbrev old : DocumentStore
old = record registry { documents = record order { status = completed } ∷ [] }

auto_archive_completed_documents-refused_example :
    auto_archive_completed_documents same_day 200 100 old ≡ (raise query_failed, old)
auto_archive_completed_documents-refused_example =
    auto_archive_completed_documents-refused same_day 200 100 old refl

-- The order is in its workflow; position 2 gives it to position 3 below, who accepts, asks for more
-- time and reports.
abbrev desk : ResolutionStore
desk = record {
  documents = record order { status = in_workflow; created_by_position_id = some 2 } ∷ [];
  resolutions = [];
  assignments = [];
  extensions = [];
  next_id = 1;
  log = [];
}

abbrev instruction : IssueResolutionDto
instruction = record {
  workflow_step_id = none;
  text = "carry it out";
  priority = none;
  deadline = some 30;
  executors = record { position_id = 3; role = none; instruction = none; deadline = none } ∷ [];
}

abbrev proceedings : List Proceedings.Request
proceedings =
    Proceedings.issue 1 3 instruction 7 2 1
    ∷ Proceedings.accept 1 3
    ∷ Proceedings.extend 1 1 (record { requested_deadline = "day 40"; justification = "leave" }) 8 3
    ∷ Proceedings.approve 9 1 none 7 2
    ∷ Proceedings.report 10 1 "done" 3
    ∷ []

-- Noon of day 30; day 20 written without hyphens, which is an invalid Date but a day for the
-- database; and day 40.
abbrev time_of : String → Option ℕ
time_of text =
    if same_text text "noon of day 30"
    then some (midnight 30 + 43_200_000)
    else if same_text text "20260520"
    then none
    else some (midnight 40)

abbrev day_of : String → Option ℕ
day_of text =
    if same_text text "noon of day 30"
    then some 30
    else if same_text text "20260520"
    then some 20
    else some 40

abbrev requested : String → ResolutionStore
requested text =
    serve_all (command_chain_of officers officers-IsGrounded) (λ k. some 8) time_of day_of
      (Proceedings.issue 1 3 instruction 7 2 1
        ∷ Proceedings.extend 1 1 (record { requested_deadline = text; justification = "leave" }) 8 3
        ∷ [])
      desk

-- The deadline is day 30: a request for the same day is taken, and so is one for an earlier day.
same_day_taken : map (λ r. r.requested_deadline) (requested "noon of day 30").extensions ≡ 30 ∷ []
unfolding serve_all Proceedings.serve issue_resolution request_extension command_chain_of
    coes_platform.Org.is_subordinate_to
same_day_taken = refl

earlier_day_taken : map (λ r. r.requested_deadline) (requested "20260520").extensions ≡ 20 ∷ []
unfolding serve_all Proceedings.serve issue_resolution request_extension command_chain_of
    coes_platform.Org.is_subordinate_to
earlier_day_taken = refl

desk-IsOrderly : IsOrderly desk
desk-IsOrderly = (tt, (tt, λ k. omega arith))

serve_all-IsOrderly_example : IsOrderly (
    serve_all
      (command_chain_of officers officers-IsGrounded)
      (λ k. some 8)
      time_of
      day_of
      proceedings
      desk)
serve_all-IsOrderly_example =
    serve_all-IsOrderly (command_chain_of officers officers-IsGrounded) (λ k. some 8) time_of day_of
      proceedings desk desk-IsOrderly

abbrev anything : ListDocumentsDto
anything = record {
  status = none;
  direction = none;
  type_id = none;
  search = none;
  from = none;
  to = none;
  limit = none;
  offset = none;
}

list_documents-All_example :
    All
      (λ d. get_document d.id 7 none 1 registry ≡ (return d, registry))
      (list_documents (λ subject text. false) anything 7 none 1 registry).0
list_documents-All_example =
    list_documents-All (λ subject text. false) anything 7 none 1 registry (tt, tt)
