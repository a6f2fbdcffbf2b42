-- ===== src/Edms/Runs.antt =====
-- Any sequence of requests to the document service, each carried out or refused.
use coes_platform.Base.{
  ℕ, Bool, true, false, not, ◌&&◌, Option, none, some, ◌==◌, any, ltb, arith, ◌≡◌,
}
use coes_platform.Edms.State.{Document, DocumentStore, document_of}
use coes_platform.Edms.Documents.{
  CreateDocumentDto, UpdateDocumentDto, create_document, get_document, update_document,
}
use coes_platform.Edms.Registry.{RegisterDocumentDto, register_document}
use coes_platform.Edms.Lifecycle.{
  TransitionStatusDto, AddAttachmentDto, transition_document, add_attachment, remove_attachment,
  auto_archive_completed_documents,
}
use coes_platform.Edms.Valid.{IsSound}
use coes_platform.Edms.Changes.{
  create_document-IsSound, update_document-IsSound, register_document-IsSound,
  transition_document-IsSound, auto_archive-IsSound,
}

pub data Request : Type 0 where
  create : (now new_id : ℕ) → CreateDocumentDto → (actor : ℕ) → Option ℕ → Request
  update : (now document : ℕ) → UpdateDocumentDto → (actor clearance : ℕ) → Request
  register : (now year document : ℕ) → RegisterDocumentDto → (actor clearance : ℕ) → Request
  transition : (now document : ℕ) → TransitionStatusDto → (actor clearance : ℕ) → Request
  attach : (new_id document : ℕ) → AddAttachmentDto → (actor clearance : ℕ) → Request
  detach : (now document attachment actor clearance : ℕ) → Request
  archive_old : (now cutoff : ℕ) → Request

-- The id that the database gives a new document is a new one.
abbrev pub IsFresh : Request → DocumentStore → Type 0
IsFresh (create now new_id dto actor position) s =
    (any (λ d. d.id == new_id) s.documents ≡ false)
    × (any (λ v. v.document_id == new_id) s.versions ≡ false)
IsFresh (update now k dto actor clearance) s = Unit
IsFresh (register now year k dto actor clearance) s = Unit
IsFresh (transition now k dto actor clearance) s = Unit
IsFresh (attach new_id k dto actor clearance) s = Unit
IsFresh (detach now k attachment actor clearance) s = Unit
IsFresh (archive_old now cutoff) s = Unit

-- The actor wrote the document and is cleared for it.
abbrev pub may_change : Document → ℕ → ℕ → Bool
may_change d actor clearance = not (ltb clearance d.classification) && d.created_by_id == actor

abbrev bars : ℕ → ℕ → ℕ → DocumentStore → Bool
bars k actor clearance s = elim (document_of k s) [
  | none ↦ true
  | some d ↦ not (may_change d actor clearance)
]

-- A request to change a document that there is not, or that the actor may not change.
abbrev pub is_barred : Request → DocumentStore → Bool
is_barred (create now new_id dto actor position) s = false
is_barred (update now k dto actor clearance) s = bars k actor clearance s
is_barred (register now year k dto actor clearance) s = bars k actor clearance s
is_barred (transition now k dto actor clearance) s = bars k actor clearance s
is_barred (attach new_id k dto actor clearance) s = bars k actor clearance s
is_barred (detach now k attachment actor clearance) s = bars k actor clearance s
is_barred (archive_old now cutoff) s = false

module _ (add_years : ℕ → ℕ → ℕ) where
  unfoldable pub serve : Request → DocumentStore → DocumentStore
  serve (create now new_id dto actor position) s =
      (create_document now new_id dto actor position s).1
  serve (update now k dto actor clearance) s = (update_document now k dto actor clearance s).1
  serve (register now year k dto actor clearance) s =
      (register_document now year k dto actor clearance s).1
  serve (transition now k dto actor clearance) s =
      (transition_document add_years now k dto actor clearance s).1
  serve (attach new_id k dto actor clearance) s = (add_attachment new_id k dto actor clearance s).1
  serve (detach now k attachment actor clearance) s =
      (remove_attachment now k attachment actor clearance s).1
  serve (archive_old now cutoff) s = (auto_archive_completed_documents add_years now cutoff s).1

  serve-IsSound : (r : Request) (s : DocumentStore) → IsFresh r s → IsSound s → IsSound (serve r s)
  unfolding serve add_attachment remove_attachment get_document
  serve-IsSound (create now new_id dto actor position) s fresh h =
      create_document-IsSound now new_id dto actor position s fresh.0 fresh.1 h
  serve-IsSound (update now k dto actor clearance) s fresh h =
      update_document-IsSound now k dto actor clearance s h
  serve-IsSound (register now year k dto actor clearance) s fresh h =
      register_document-IsSound now year k dto actor clearance s h
  serve-IsSound (transition now k dto actor clearance) s fresh h =
      transition_document-IsSound add_years now k dto actor clearance s h
  serve-IsSound (attach new_id k dto actor clearance) s fresh h = ground arith
  serve-IsSound (detach now k attachment actor clearance) s fresh h = ground arith
  serve-IsSound (archive_old now cutoff) s fresh h = auto_archive-IsSound add_years now cutoff s h

  -- Requests served one after another, each new document with a new id.
  pub data Reaches : DocumentStore → DocumentStore → Type 0 where
    here : {s : DocumentStore} → Reaches s s
    served : (r : Request) {s t : DocumentStore} → IsFresh r s → Reaches (serve r s) t → Reaches s t

  -- Whatever requests are served, in any order, carried out or refused, these stay true if they
  -- were: the ids of the documents differ; a draft has no registration number, an archived document
  -- says when, by whom and until when, a cancelled one says when; and the newest version of each
  -- document has the greatest number and holds its present subject, body and recipients.
  pub Reaches-IsSound : {s t : DocumentStore} → Reaches s t → IsSound s → IsSound t
  Reaches-IsSound here h = h
  Reaches-IsSound (served r fresh rest) h = Reaches-IsSound rest (serve-IsSound r _ fresh h)
