-- ===== src/Edms/Lifecycle.antt =====
-- edms.service.ts: the statuses of a document, its attachments and the archive. `add_years` is the
-- calendar of the runtime: the day that many years after the time.
use coes_platform.Base.{
  ℕ, String, Bool, not, ◌&&◌, Option, none, some, List, [], ◌∷◌, ◌==◌, ltb, or_else, is_some,
  select, find, map, if◌then◌else◌, length,
}
use coes_platform.Base.Action.{
  Action, not_found, bad_request, forbidden, query_failed, get, modify, pure, require, throw_if,
  for_each, ◌>>=◌, ◌>>◌,
}
use coes_platform.Edms.State.{
  DocumentStatus, draft, registered, in_workflow, completed, archived, cancelled, Document,
  DocumentVersion, DocumentAttachment, DocumentStore, status_changed_audit, status_changed_event,
  attachment_added, attachment_removed, auto_archived_audit, note, type_of,
}
use coes_platform.Edms.Status.{may_become, same_status}
use coes_platform.Edms.Documents.{get_document, assert_author_access}
use coes_platform.Edms.Registry.{update_row}

pub record TransitionStatusDto : Type 0 where
  pub target_status : DocumentStatus
  pub reason : Option String

pub record AddAttachmentDto : Type 0 where
  pub file_id : ℕ
  pub filename : String
  pub classification : Option ℕ

abbrev pub cancelled_for : ℕ → Option String → Document → Document
cancelled_for now reason d = record d {
  status = cancelled;
  cancelled_at = some now;
  cancel_reason = reason;
  updated_at = now;
}

abbrev pub archived_by : ℕ → ℕ → ℕ → Document → Document
archived_by now actor review d = record d {
  status = archived;
  archived_at = some now;
  archived_by_id = some actor;
  retention_review_date = some review;
  updated_at = now;
}

-- `doc.type?.retentionYears ?? 5`.
abbrev pub retention_of : Document → DocumentStore → ℕ
retention_of d s = elim (type_of d.type_id s) [ none ↦ 5 | some t ↦ t.retention_years ]

unfoldable pub add_attachment :
    ℕ → ℕ → AddAttachmentDto → ℕ → ℕ → Action DocumentStore DocumentAttachment
unfolding get_document
add_attachment new_id k dto actor clearance = do
  d ← get_document k actor none clearance
  assert_author_access d actor
  let level = or_else dto.classification d.classification
  throw_if (ltb clearance level) forbidden
  let saved : DocumentAttachment = record {
    id = new_id;
    document_id = k;
    file_id = dto.file_id;
    filename = dto.filename;
    classification = level;
    uploaded_by_id = actor;
    removed_at = none;
  }
  modify (λ s. record s { attachments = saved ∷ s.attachments })
  note (attachment_added new_id k ∷ [])
  pure saved

abbrev pub removed : ℕ → DocumentAttachment → DocumentAttachment
removed now a = record a { removed_at = some now }

unfoldable pub remove_attachment : ℕ → ℕ → ℕ → ℕ → ℕ → Action DocumentStore (Unit {0})
unfolding get_document
remove_attachment now k attachment actor clearance = do
  d ← get_document k actor none clearance
  assert_author_access d actor
  s ← get
  found ←
      require
        (find (λ a. a.id == attachment && (a.document_id == k && not (is_some a.removed_at)))
          s.attachments)
        not_found
  modify (λ t. record t {
    attachments = map (λ a. if a.id == attachment then removed now a else a) t.attachments;
  })
  note (attachment_removed attachment k ∷ [])

unfoldable pub get_versions : ℕ → ℕ → ℕ → Action DocumentStore (List DocumentVersion)
unfolding get_document
get_versions k actor clearance = do
  d ← get_document k actor none clearance
  assert_author_access d actor
  s ← get
  pure (select (λ v. v.document_id == k) s.versions)

-- The documents that autoArchiveCompletedDocuments takes; `cutoff` is the time before which they
-- were last changed.
abbrev pub is_to_archive : ℕ → Document → Bool
is_to_archive cutoff d = same_status d.status completed && ltb d.updated_at cutoff

-- `update(id, { status: ARCHIVED, … })`. The column of the archivist is a UUID, and the database
-- refuses a text that is none: then there is no `actor`.
abbrev pub save_archived : ℕ → ℕ → Option ℕ → ℕ → Action DocumentStore (Unit {0})
save_archived k now actor review = do
  by ← require actor query_failed
  modify (λ s. record s { documents = update_row k (archived_by now by review) s.documents })

module _ (add_years : ℕ → ℕ → ℕ) where
  -- The fields that a status brings with it.
  abbrev pub with_status : ℕ → ℕ → Option String → ℕ → DocumentStatus → Document → Document
  with_status now actor reason years cancelled d = cancelled_for now reason d
  with_status now actor reason years archived d = archived_by now actor (add_years now years) d
  with_status now actor reason years draft d = record d { status = draft; updated_at = now }
  with_status now actor reason years registered d = record d {
    status = registered;
    updated_at = now;
  }
  with_status now actor reason years in_workflow d = record d {
    status = in_workflow;
    updated_at = now;
  }
  with_status now actor reason years completed d = record d { status = completed; updated_at = now }

  unfoldable pub transition_document :
      ℕ → ℕ → TransitionStatusDto → ℕ → ℕ → Action DocumentStore Document
  unfolding get_document
  transition_document now k dto actor clearance = do
    d ← get_document k actor none clearance
    assert_author_access d actor
    throw_if (not (may_become d.status dto.target_status)) bad_request
    s ← get
    let change = with_status now actor dto.reason (retention_of d s) dto.target_status
    modify (λ t. record t { documents = update_row k change t.documents })
    note (
        status_changed_audit k d.status dto.target_status
        ∷ status_changed_event k d.status dto.target_status
        ∷ [])
    pure (change d)

  -- The round of a document: `archivedById: 'system'` is no UUID.
  abbrev pub archive_round : ℕ → Document → Action DocumentStore (Unit {0})
  archive_round now d = do
    s ← get
    save_archived d.id now none (add_years now (retention_of d s))
    note (auto_archived_audit d.id ∷ [])

  unfoldable pub auto_archive_completed_documents : ℕ → ℕ → Action DocumentStore ℕ
  auto_archive_completed_documents now cutoff = do
    s ← get
    let due = select (is_to_archive cutoff) s.documents
    for_each (archive_round now) due
    pure (length due)
