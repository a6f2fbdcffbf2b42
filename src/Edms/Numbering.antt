-- ===== src/Edms/Numbering.antt =====
-- The numbers that a series gives out in a year.
use coes_platform.Base.{
  ℕ, suc, ◌+◌, String, ◌&&◌, Option, List, [], ◌∷◌, ◌==◌, map, select, length, arith, ◌≡◌, refl,
  inl, inr, Bool-cases, Option-cases,
}
use coes_platform.Base.Text.{same_text, same_text-eq}
use coes_platform.Edms.State.{RegistrationRecord, DocumentStore, document_of, type_of}
use coes_platform.Edms.Documents.{get_document}
use coes_platform.Edms.Registry.{
  RegisterDocumentDto, in_series, last_number, register_number, register_document, registration_of,
}

-- The newest number first: n, n - 1, …, 1.
abbrev pub IsNumbered : List ℕ → Type 0
IsNumbered [] = Unit
IsNumbered (k ∷ ks) = (k ≡ suc (length ks)) × IsNumbered ks

abbrev pub numbers_of : String → ℕ → List RegistrationRecord → List ℕ
numbers_of series year records =
    map (λ r. r.sequence_number) (select (in_series series year) records)

-- No number is missing and none is given twice, in any series and year.
abbrev pub IsGapless : List RegistrationRecord → Type 0
IsGapless records = (series : String) (year : ℕ) → IsNumbered (numbers_of series year records)

last_number-length :
    (series : String) (year : ℕ) (records : List RegistrationRecord)
    → IsNumbered (numbers_of series year records)
    → last_number series year records ≡ length (numbers_of series year records)
last_number-length series year [] h = refl
last_number-length series year (r ∷ records) h = elim (Bool-cases (in_series series year r)) [
  | inl t ↦
      let numbered : IsNumbered (r.sequence_number ∷ numbers_of series year records) = rw t at h in
      let rest = last_number-length series year records numbered.1 in
      let own = numbered.0 in ground arith
  | inr f ↦ let rest = last_number-length series year records (rw f at h) in ground arith
]

-- The next number of one series and year is none of another.
IsGapless-register :
    (series : String) (year document registrar : ℕ) (position : Option ℕ)
    (records : List RegistrationRecord)
    → IsGapless records
    → IsGapless (
        registration_of
          (record {
            series_code = series;
            sequence_number = last_number series year records + 1;
            year = year;
          })
          document
          registrar
          position
        ∷ records)
IsGapless-register series year document registrar position records h other when =
    elim (Bool-cases (same_text series other && year == when)) [
      | inl t ↦
          let same : series ≡ other = same_text-eq series other (ground arith) in
          let same_year : year ≡ when = ground arith in
          let counted = last_number-length series year records (h series year) in
          let moved : length (numbers_of series year records)
              ≡ length (numbers_of other when records) =
            cc in
          rw t (omega (arith, counted, moved), h other when)
      | inr f ↦ rw f (h other when)
    ]

-- registerDocument, carried out or refused, keeps the numbers of every series and year the numbers
-- from one on, each given once and none left out.
pub register_document-IsGapless :
    (now year k : ℕ) (dto : RegisterDocumentDto) (actor clearance : ℕ) (s : DocumentStore)
    → IsGapless s.records
    → IsGapless (register_document now year k dto actor clearance s).1.records
unfolding register_document register_number get_document
register_document-IsGapless now year k dto actor clearance s h =
    elim (Option-cases (document_of k s)) [
      | inl missing ↦ rw missing h
      | inr (d, found) ↦ elim (Option-cases (type_of d.type_id s)) [
        | inl no_type ↦ ground arith
        | inr (t, typed) ↦
            let kept =
              IsGapless-register t.series_code year d.id actor dto.registrar_position_id s.records
                h in
            ground arith
      ]
    ]
