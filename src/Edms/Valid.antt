-- ===== src/Edms/Valid.antt =====
-- What holds of every document, and of its versions.
use coes_platform.Base.{
  ℕ, ◌+◌, Bool, true, false, not, ◌&&◌, some, List, [], ◌∷◌, ◌==◌, find, any, save_row, All,
  All-map, All-both, HasIds, is_some, arith, ◌≡◌, refl, ap, inl, inr, Bool-cases,
}
use coes_platform.Edms.State.{
  DocumentStatus, draft, registered, in_workflow, completed, archived, cancelled, Document,
  DocumentVersion, DocumentStore, document_id,
}
use coes_platform.Edms.Documents.{last_version, UpdateDocumentDto, edited, snapshot}

-- The columns that go with a status.
abbrev pub has_columns : DocumentStatus → Document → Bool
has_columns draft d = not (is_some d.registration_number)
has_columns registered d = true
has_columns in_workflow d = true
has_columns completed d = true
has_columns archived d =
    is_some d.archived_at && (is_some d.archived_by_id && is_some d.retention_review_date)
has_columns cancelled d = is_some d.cancelled_at

-- A draft has no number, an archived document says when, by whom and until when, and a cancelled
-- one says when.
abbrev pub IsWell : Document → Type 0
IsWell d = has_columns d.status d ≡ true

-- The newest version of a document has the greatest number, and is the document as it stands.
abbrev pub IsTraced : List DocumentVersion → Document → Type 0
IsTraced versions d =
    (v : DocumentVersion) × (find (λ v. v.document_id == d.id) versions ≡ some v)
    × (v.version_number ≡ last_version d.id versions)
    × (v.subject ≡ d.subject)
    × (v.body ≡ d.body)
    × (v.recipients ≡ d.recipients)

abbrev pub IsSound : DocumentStore → Type 0
IsSound s =
    HasIds document_id s.documents
    × (All IsWell s.documents × All (IsTraced s.versions) s.documents)

-- A version of another document.
other_version-IsTraced :
    (v : DocumentVersion) (vs : List DocumentVersion) (d : Document)
    → (v.document_id == d.id) ≡ false
    → IsTraced vs d
    → IsTraced (v ∷ vs) d
other_version-IsTraced v vs d other h =
    (h.0, rw other h.1, let number = h.2 in rw other number, h.3, h.4, h.5)

-- The documents of a table after one of them got a version.
pub save_row-IsTraced :
    (v : DocumentVersion) (vs : List DocumentVersion) (d : Document) (xs : List Document)
    → v.document_id ≡ d.id
    → IsTraced (v ∷ vs) d
    → HasIds document_id xs
    → All (IsTraced vs) xs
    → All (IsTraced (v ∷ vs)) (save_row document_id d xs)
save_row-IsTraced v vs d [] own now ids h = (now, tt)
save_row-IsTraced v vs d (x ∷ xs) own now ids h = elim (Bool-cases (x.id == d.id)) [
  | inl t ↦
      let apart = All-both (λ y. (y.id == x.id) ≡ false) (IsTraced vs) xs ids.0 h.1 in
      rw t (
        now,
        All-map (λ y. ((y.id == x.id) ≡ false) × IsTraced vs y) (IsTraced (v ∷ vs))
            (λ y k. let away = k.0 in other_version-IsTraced v vs y (ground arith) k.1) xs apart,
      )
  | inr f ↦ rw f (
    other_version-IsTraced v vs x (ground arith) h.0,
    save_row-IsTraced v vs d xs own now ids.1 h.1,
  )
]

-- The documents of a table after a new one came with its version.
pub new_version-IsTraced :
    (v : DocumentVersion) (vs : List DocumentVersion) (xs : List Document)
    → any (λ d. d.id == v.document_id) xs ≡ false
    → All (IsTraced vs) xs
    → All (IsTraced (v ∷ vs)) xs
new_version-IsTraced v vs [] new h = tt
new_version-IsTraced v vs (x ∷ xs) new h = (
  other_version-IsTraced v vs x (ground arith) h.0,
  new_version-IsTraced v vs xs (ground arith) h.1,
)

-- A draft that is edited keeps the columns of its status.
pub edited-columns :
    (now : ℕ) (dto : UpdateDocumentDto) (status : DocumentStatus) (d : Document)
    → has_columns status (edited now dto d) ≡ has_columns status d
edited-columns now dto draft d = refl
edited-columns now dto registered d = refl
edited-columns now dto in_workflow d = refl
edited-columns now dto completed d = refl
edited-columns now dto archived d = refl
edited-columns now dto cancelled d = refl

pub last_version-none :
    (k : ℕ) (vs : List DocumentVersion)
    → any (λ v. v.document_id == k) vs ≡ false
    → last_version k vs ≡ 0
last_version-none k [] h = refl
last_version-none k (v ∷ vs) h = let rest = last_version-none k vs in ground arith

-- The first version of a document with a new id.
pub first_version-IsTraced :
    (v : DocumentVersion) (vs : List DocumentVersion) (d : Document)
    → v ≡ snapshot (last_version d.id vs + 1) d v.author_id v.change_reason
    → IsTraced (v ∷ vs) d
first_version-IsTraced v vs d e =
    let key : v.document_id ≡ d.id = ap (λ w. w.document_id) e in
    let number : v.version_number ≡ last_version d.id vs + 1 = ap (λ w. w.version_number) e in
    let own : (v.document_id == d.id) ≡ true = ground arith in
    (
      v,
      rw own refl,
      rw own (ground arith),
      ap (λ w. w.subject) e,
      ap (λ w. w.body) e,
      ap (λ w. w.recipients) e,
    )

apart-All :
    (k : ℕ) (xs : List Document)
    → any (λ d. d.id == k) xs ≡ false
    → All (λ d. (d.id == k) ≡ false) xs
apart-All k [] h = tt
apart-All k (x ∷ xs) h = (ground arith, apart-All k xs (ground arith))

pub HasIds-new :
    (d : Document) (xs : List Document)
    → any (λ x. x.id == d.id) xs ≡ false
    → HasIds document_id xs
    → HasIds document_id (d ∷ xs)
HasIds-new d xs new h = (apart-All d.id xs new, h)
