-- ===== src/Edms/Changes.antt =====
-- Each operation of the document service keeps the documents and their versions sound.
use coes_platform.Base.{
  every, ℕ, ◌+◌, String, true, false, ◌&&◌, Option, none, List, ◌∷◌, ◌==◌, find, any, select, All,
  All-find, All-save_row, All-update, HasIds, HasIds-map, HasIds-save_row, if◌then◌else◌, arith,
  ◌≡◌, refl, ◌∙◌, inl, inr, Bool-cases, Option-cases, find-passes,
}
use coes_platform.Base.Action.{for_each, and_then-keeps, for_each_inv}
use coes_platform.Edms.State.{
  DocumentStatus, draft, registered, in_workflow, completed, archived, cancelled, Document,
  DocumentVersion, DocumentStore, document_id, document_of, type_of, RegistrationNumber,
}
use coes_platform.Edms.Status.{may_become, document_transitions}
use coes_platform.Edms.Documents.{
  CreateDocumentDto, UpdateDocumentDto, create_document, get_document, update_document,
  new_document, edited, snapshot, last_version, given_or,
}
use coes_platform.Edms.Registry.{
  RegisterDocumentDto, register_document, register_number, registered_as, update_row, last_number,
}
use coes_platform.Edms.Lifecycle.{
  TransitionStatusDto, transition_document, auto_archive_completed_documents, archive_round,
  with_status, retention_of, is_to_archive,
}
use coes_platform.Edms.Valid.{
  IsWell, IsTraced, IsSound, save_row-IsTraced, new_version-IsTraced, edited-columns,
  last_version-none, first_version-IsTraced, HasIds-new,
}

pub create_document-IsSound :
    (now new_id : ℕ) (dto : CreateDocumentDto) (actor : ℕ) (position : Option ℕ) (s : DocumentStore)
    → any (λ d. d.id == new_id) s.documents ≡ false
    → any (λ v. v.document_id == new_id) s.versions ≡ false
    → IsSound s
    → IsSound (create_document now new_id dto actor position s).1
unfolding create_document
create_document-IsSound now new_id dto actor position s new unversioned h =
    elim (Option-cases (find (λ t. t.id == dto.type_id && t.active) s.types)) [
      | inl missing ↦ rw missing h
      | inr (t, found) ↦
          let d = new_document now new_id dto t actor position in
          let v = snapshot 1 d actor none in
          let none_yet = last_version-none new_id s.versions unversioned in
          let first = first_version-IsTraced v s.versions d (rw none_yet refl) in
          rw found (
            HasIds-new d s.documents new h.0,
            ((refl, h.1.0), (first, new_version-IsTraced v s.versions s.documents new h.1.1)),
          )
    ]

pub update_document-IsSound :
    (now k : ℕ) (dto : UpdateDocumentDto) (actor clearance : ℕ) (s : DocumentStore)
    → IsSound s
    → IsSound (update_document now k dto actor clearance s).1
unfolding update_document get_document
update_document-IsSound now k dto actor clearance s h = elim (Option-cases (document_of k s)) [
  | inl missing ↦ rw missing h
  | inr (d, found) ↦
      let saved = edited now dto d in
      let well = All-find IsWell _ s.documents h.1.0 found in
      let same = find-passes (λ x. x.id == k) s.documents found in
      let v = snapshot (last_version k s.versions + 1) saved actor dto.change_reason in
      let ids = HasIds-save_row document_id saved s.documents h.0 in
      let all_well =
        All-save_row IsWell document_id saved s.documents (edited-columns now dto d.status d ∙ well)
          h.1.0 in
      let key : k ≡ d.id = ground arith in
      let own : IsTraced (v ∷ s.versions) saved =
        first_version-IsTraced v s.versions saved (rw key refl) in
      let traced = save_row-IsTraced v s.versions saved s.documents refl own h.0 h.1.1 in
      ground arith
]

-- An update of the rows with an id that keeps the id, the text and the columns of the status.
update-IsSound :
    (k : ℕ) (f : Document → Document) (s : DocumentStore)
    → ((d : Document) → document_id (f d) ≡ document_id d)
    → ((d : Document) → IsWell d → IsWell (f d))
    → ((d : Document) → IsTraced s.versions d → IsTraced s.versions (f d))
    → IsSound s
    → HasIds document_id (update_row k f s.documents)
      × (All IsWell (update_row k f s.documents)
          × All (IsTraced s.versions) (update_row k f s.documents))
update-IsSound k f s id well traced h = (
  HasIds-map document_id (λ d. if d.id == k then f d else d) (λ d. let same = id d in ground arith)
      s.documents h.0,
  (
    All-update IsWell (λ d. d.id == k) f well s.documents h.1.0,
    All-update (IsTraced s.versions) (λ d. d.id == k) f traced s.documents h.1.1,
  ),
)

pub register_document-IsSound :
    (now year k : ℕ) (dto : RegisterDocumentDto) (actor clearance : ℕ) (s : DocumentStore)
    → IsSound s
    → IsSound (register_document now year k dto actor clearance s).1
unfolding register_document register_number get_document
register_document-IsSound now year k dto actor clearance s h =
    elim (Option-cases (document_of k s)) [
      | inl missing ↦ rw missing h
      | inr (d, found) ↦ elim (Option-cases (type_of d.type_id s)) [
        | inl no_type ↦ ground arith
        | inr (t, typed) ↦
            let number : RegistrationNumber = record {
              series_code = t.series_code;
              sequence_number = last_number t.series_code year s.records + 1;
              year = year;
            } in
            let change = registered_as now number (given_or dto.document_date d.document_date) in
            let kept = update-IsSound d.id change s (λ x. refl) (λ x w. refl) (λ x v. v) h in
            ground arith
      ]
    ]

-- No status leads to DRAFT.
not_to_draft : (from : DocumentStatus) → may_become from draft ≡ false
unfolding may_become document_transitions
not_to_draft draft = refl
not_to_draft registered = refl
not_to_draft in_workflow = refl
not_to_draft completed = refl
not_to_draft archived = refl
not_to_draft cancelled = refl

module _ (add_years : ℕ → ℕ → ℕ) where
  with_status-IsWell :
      (now actor : ℕ) (reason : Option String) (years : ℕ) (from target : DocumentStatus)
      (d : Document)
      → may_become from target ≡ true
      → IsWell (with_status add_years now actor reason years target d)
  with_status-IsWell now actor reason years from draft d edge = let never = not_to_draft from in cc
  with_status-IsWell now actor reason years from registered d edge = refl
  with_status-IsWell now actor reason years from in_workflow d edge = refl
  with_status-IsWell now actor reason years from completed d edge = refl
  with_status-IsWell now actor reason years from archived d edge = refl
  with_status-IsWell now actor reason years from cancelled d edge = refl

  with_status-id :
      (now actor : ℕ) (reason : Option String) (years : ℕ) (target : DocumentStatus) (d : Document)
      → document_id (with_status add_years now actor reason years target d) ≡ document_id d
  with_status-id now actor reason years draft d = refl
  with_status-id now actor reason years registered d = refl
  with_status-id now actor reason years in_workflow d = refl
  with_status-id now actor reason years completed d = refl
  with_status-id now actor reason years archived d = refl
  with_status-id now actor reason years cancelled d = refl

  with_status-IsTraced :
      (now actor : ℕ) (reason : Option String) (years : ℕ) (target : DocumentStatus)
      (vs : List DocumentVersion) (d : Document)
      → IsTraced vs d
      → IsTraced vs (with_status add_years now actor reason years target d)
  with_status-IsTraced now actor reason years draft vs d h = h
  with_status-IsTraced now actor reason years registered vs d h = h
  with_status-IsTraced now actor reason years in_workflow vs d h = h
  with_status-IsTraced now actor reason years completed vs d h = h
  with_status-IsTraced now actor reason years archived vs d h = h
  with_status-IsTraced now actor reason years cancelled vs d h = h

  pub transition_document-IsSound :
      (now k : ℕ) (dto : TransitionStatusDto) (actor clearance : ℕ) (s : DocumentStore)
      → IsSound s
      → IsSound (transition_document add_years now k dto actor clearance s).1
  unfolding transition_document get_document
  transition_document-IsSound now k dto actor clearance s h =
      elim (Option-cases (document_of k s)) [
        | inl missing ↦ rw missing h
        | inr (d, found) ↦ elim (Bool-cases (may_become d.status dto.target_status)) [
          | inr barred ↦ ground arith
          | inl edge ↦
              let years = retention_of d s in
              let kept =
                update-IsSound k
                  (with_status add_years now actor dto.reason years dto.target_status) s
                  (with_status-id now actor dto.reason years dto.target_status)
                  (λ x w.
                    with_status-IsWell now actor dto.reason years d.status dto.target_status x edge)
                  (with_status-IsTraced now actor dto.reason years dto.target_status s.versions)
                  h in
              ground arith
        ]
      ]

  pub auto_archive-IsSound :
      (now cutoff : ℕ) (s : DocumentStore)
      → IsSound s
      → IsSound (auto_archive_completed_documents add_years now cutoff s).1
  unfolding auto_archive_completed_documents
  auto_archive-IsSound now cutoff s h =
      let due = select (is_to_archive cutoff) s.documents in
      and_then-keeps IsSound (for_each (archive_round add_years now) due s) _
        (for_each_inv (λ _. Unit {0}) IsSound (archive_round add_years now) (λ d t u k. k) due s
          (every due) h)
        (λ u t k. k)
