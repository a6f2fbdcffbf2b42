-- ===== src/Edms/Listing.antt =====
-- edms.service.ts: the list of documents. The `ILIKE` of the database is a parameter; the rows come
-- with the newest first, as the table has them.
use coes_platform.Base.{
  ℕ, zero, suc, String, Bool, true, false, ◌&&◌, ◌||◌, Option, none, some, List, [], ◌∷◌, ◌==◌, leb,
  or_else, is_id, any, find, select, select-All, take, length, All, All-map, All-both, All-select,
  All-take, HasIds, arith, ==_refl, ◌≡◌, refl,
}
use coes_platform.Base.Action.{return}
use coes_platform.Edms.State.{
  DocumentStatus, DocumentDirection, incoming, outgoing, internal, Document, DocumentStore,
  document_id,
}
use coes_platform.Edms.Status.{same_status}
use coes_platform.Edms.Documents.{get_document, is_visible}

pub record ListDocumentsDto : Type 0 where
  pub status : Option DocumentStatus
  pub direction : Option DocumentDirection
  pub type_id : Option ℕ
  pub search : Option String
  pub from : Option ℕ
  pub to : Option ℕ
  pub limit : Option ℕ
  pub offset : Option ℕ

abbrev same_direction : DocumentDirection → DocumentDirection → Bool
same_direction incoming incoming = true
same_direction outgoing outgoing = true
same_direction internal internal = true
same_direction _ _ = false

-- `if (dto.field) qb.andWhere(…)`.
abbrev filtered {ℓ} : {A : Type ℓ} → Option A → (A → Bool) → Bool
filtered none test = true
filtered (some a) test = test a

-- buildDocumentVisibilityWhere, as the condition that the database evaluates.
abbrev pub visibility_where : ℕ → Option ℕ → Document → Bool
visibility_where actor none d = d.created_by_id == actor
visibility_where actor (some position) d =
    (d.created_by_id == actor || is_id d.created_by_position_id position)
    || (is_id d.sender_position_id position || any (λ r. is_id r.position_id position) d.recipients)

-- `skip(offset)`.
abbrev pub drop {ℓ} : {A : Type ℓ} → ℕ → List A → List A
drop zero xs = xs
drop (suc n) [] = []
drop (suc n) (x ∷ xs) = drop n xs

module _ (ilike : String → String → Bool) where
  abbrev pub is_match : ListDocumentsDto → Document → Bool
  is_match dto d =
      (filtered dto.status (same_status d.status)
        && filtered dto.direction (same_direction d.direction))
      && ((filtered dto.type_id (λ k. d.type_id == k) && filtered dto.search (ilike d.subject))
          && (filtered dto.from (λ t. leb t d.created_at)
              && filtered dto.to (λ t. leb d.created_at t)))

  abbrev pub is_on_list : ListDocumentsDto → ℕ → Option ℕ → ℕ → Document → Bool
  is_on_list dto actor position clearance d =
      (leb d.classification clearance && visibility_where actor position d) && is_match dto d

  -- The page and the total.
  unfoldable pub list_documents :
      ListDocumentsDto → ℕ → Option ℕ → ℕ → DocumentStore → List Document × ℕ
  list_documents dto actor position clearance s =
      let rows = select (is_on_list dto actor position clearance) s.documents in
      (take (or_else dto.limit 20) (drop (or_else dto.offset 0) rows), length rows)

All-drop {ℓ κ} : {A : Type ℓ} (P : A → Type κ) (n : ℕ) (xs : List A) → All P xs → All P (drop n xs)
All-drop P zero xs h = h
All-drop P (suc n) [] h = tt
All-drop P (suc n) (x ∷ xs) h = All-drop P n xs h.1

abbrev IsFoundIn : List Document → Document → Type 0
IsFoundIn table d = find (λ x. x.id == d.id) table ≡ some d

-- With different ids every row is the one that its id finds.
find-own : (xs : List Document) → HasIds document_id xs → All (IsFoundIn xs) xs
find-own [] h = tt
find-own (x ∷ xs) h = (
  rw (==_refl x.id) refl,
  All-map (λ d. ((d.id == x.id) ≡ false) × IsFoundIn xs d) (IsFoundIn (x ∷ xs))
      (λ d k. let away = k.0 in let found = k.1 in ground arith) xs
      (All-both (λ d. (d.id == x.id) ≡ false) (IsFoundIn xs) xs h.0 (find-own xs h.1)),
)

where_visible :
    (actor : ℕ) (position : Option ℕ) (d : Document)
    → visibility_where actor position d ≡ true
    → is_visible d actor position ≡ true
where_visible actor none d h = ground arith
where_visible actor (some position) d h = ground arith

-- Every document on a page of the list can be opened: getDocument returns it to the same actor with
-- the same position and clearance, provided that the ids of the documents differ.
pub list_documents-All :
    (ilike : String → String → Bool) (dto : ListDocumentsDto) (actor : ℕ) (position : Option ℕ)
    (clearance : ℕ) (s : DocumentStore)
    → HasIds document_id s.documents
    → All
        (λ d. get_document d.id actor position clearance s ≡ (return d, s))
        (list_documents ilike dto actor position clearance s).0
unfolding list_documents get_document
list_documents-All ilike dto actor position clearance s ids =
    let p = is_on_list ilike dto actor position clearance in
    let rows = select p s.documents in
    let found = All-select (IsFoundIn s.documents) p s.documents (find-own s.documents ids) in
    All-take _ (or_else dto.limit 20) (drop (or_else dto.offset 0) rows) (
      All-drop _ (or_else dto.offset 0) rows (
        All-map (λ d. IsFoundIn s.documents d × (p d ≡ true)) _
          (λ d k.
            let at = k.0 in
            let passes = k.1 in
            let seen : is_visible d actor position ≡ true =
              where_visible actor position d (ground arith) in
            ground arith)
          rows
          (All-both (IsFoundIn s.documents) (λ d. p d ≡ true) rows found
            (select-All p s.documents))))
