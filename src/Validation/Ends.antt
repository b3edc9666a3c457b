-- ===== src/Validation/Ends.antt =====
-- What `validate_extracted_candidate` of validate.py leaves behind.
use inno_scalping_crawling.Common.{
  ℕ, List, ◌≡◌, ◌≢◌, refl, ap, ◌∙◌, str_eq, not, true, false, Option, none, some, [], keep, Text,
  codes, Result, ok, err, length, text_eq,
}
use inno_scalping_crawling.Common.Int.{ℤ}
use inno_scalping_crawling.Publication.{Value, text, one_of, get}
use inno_scalping_crawling.Validation.{
  ValidationError, error_class, class_name, core_fields, not_recorded,
}
use inno_scalping_crawling.Validation.Rows.{Surroundings}
use inno_scalping_crawling.Validation.Recording.{
  DocumentVersion, not_writable, fields_of, set_entry, metadata_of, store_metadata, success_note,
  failure_note, record_success, record_failure,
}
use inno_scalping_crawling.Validation.Notes.{
  get-set_self, get-set_other, IsKept, moves_to_validated, moves_to_failed, moves_nowhere, written,
  noted_as, written-IsKept,
}
use inno_scalping_crawling.Validation.Outcome.{
  ValidationResult, Validated, safe, check_candidate, refuse, accept_or_refuse, record_outcome,
  validate_extracted_candidate, publishable_fields,
}

-- The candidate and its evidence are given back, and the version is validated and says so.
pub record IsAccepted (env : Surroundings) (v : DocumentVersion) (r : ValidationResult)
    : Type 0 where
  pub no_error : r.error ≡ none
  pub state : r.document_version.processing_status ≡ "validated"
  pub has_evidence : r.evidence ≢ []
  pub id : Text
  pub noted :
      get (codes "validation") (metadata_of r.document_version.entries)
      ≡ some (success_note env id (length r.evidence) r.publishable_fields r.excluded_fields)
  pub kept : IsKept v r.document_version

-- Nothing is given back, and the version has failed and says with which class of error.
pub record IsRefused (env : Surroundings) (v : DocumentVersion) (r : ValidationResult)
    (error : ValidationError) : Type 0 where
  pub reported : r.error ≡ some error
  pub state : r.document_version.processing_status ≡ "failed"
  pub noted :
      get (codes "validation") (metadata_of r.document_version.entries)
      ≡ some (failure_note env error)
  pub classed :
      get (codes "error_class") (metadata_of r.document_version.entries)
      ≡ some (text (class_name (error_class error)))
  pub kept : IsKept v r.document_version
  pub no_candidate : r.candidate ≡ none
  pub no_evidence : r.evidence ≡ []
  pub no_field : r.publishable_fields ≡ []

module _ (env : Surroundings) (schema : Value → Result ValidationError Value) where
  record_success_lem :
      (v : DocumentVersion) (id : Text) (count : ℕ) (fields excluded : List Text)
      → v.processing_status ≡ "extracted"
      → v.writable ≡ true
      → record_success env v id count fields excluded
        ≡ ok (
            written v "validated" (
              set_entry
                (codes "validation")
                (success_note env id count fields excluded)
                (metadata_of v.entries)))
  unfolding record_success store_metadata
  record_success_lem v id count fields excluded e w = rw (moves_to_validated v e w, w) refl

  record_success_raises :
      (v : DocumentVersion) (id : Text) (count : ℕ) (fields excluded : List Text)
      → v.processing_status ≡ "extracted"
      → v.writable ≡ false
      → record_success env v id count fields excluded ≡ err not_writable
  unfolding record_success
  record_success_raises v id count fields excluded e w = rw (moves_nowhere v e w).0 refl

  pub record_outcome-ok :
      (v : DocumentVersion) (x : Validated)
      → v.processing_status ≡ "extracted"
      → v.writable ≡ true
      → x.rows ≢ []
      → (r : ValidationResult) × (record_outcome env schema v (ok x) ≡ ok r)
        × IsAccepted env v r
        × (r.evidence ≡ x.rows)
        × (r.publishable_fields ≡ publishable_fields x.payload x.rows)
  unfolding record_outcome accept_or_refuse
  record_outcome-ok v x e w some_row =
      let fields = publishable_fields x.payload x.rows in
      let excluded = keep (λ name. not (one_of fields name)) core_fields in
      let note = success_note env x.id (length x.rows) fields excluded in
      let payload = set_entry (codes "validation") note (metadata_of v.entries) in
      (
        record {
          candidate = some (safe x.payload);
          evidence = x.rows;
          document_version = written v "validated" payload;
          publishable_fields = fields;
          excluded_fields = excluded;
          error = none;
        },
        ap (accept_or_refuse env schema v x)
            (record_success_lem v x.id (length x.rows) fields excluded e w),
        record {
          no_error = refl;
          state = refl;
          has_evidence = some_row;
          id = x.id;
          noted =
              noted_as v "validated" payload (codes "validation") (some note)
                (get-set_self (codes "validation") note (metadata_of v.entries));
          kept = written-IsKept v "validated" payload (λ name ne _.
              get-set_other (codes "validation") name note (metadata_of v.entries) ne);
        },
        refl,
        refl,
      )

  refuse_lem :
      (v : DocumentVersion) (e : ValidationError)
      → v.processing_status ≡ "extracted"
      → v.writable ≡ true
      → (r : ValidationResult) × (refuse env schema v e ≡ ok r) × IsRefused env v r e
  unfolding refuse record_failure store_metadata
  refuse_lem v e s w =
      let note = failure_note env e in
      let class = text (class_name (error_class e)) in
      let noted = set_entry (codes "validation") note (metadata_of v.entries) in
      let payload = set_entry (codes "error_class") class noted in
      (
        record {
          candidate = none;
          evidence = [];
          document_version = written v "failed" payload;
          publishable_fields = [];
          excluded_fields = core_fields;
          error = some e;
        },
        rw (ap (λ t. str_eq t "extracted") s, moves_to_failed v s w, w) refl,
        record {
          reported = refl;
          state = refl;
          noted = noted_as v "failed" payload (codes "validation") (some note) (
              get-set_other (codes "error_class") (codes "validation") class noted apart
              ∙ get-set_self (codes "validation") note (metadata_of v.entries));
          classed =
              noted_as v "failed" payload (codes "error_class") (some class)
                (get-set_self (codes "error_class") class noted);
          kept = written-IsKept v "failed" payload (λ name ne ne'.
              get-set_other (codes "error_class") name class noted ne'
              ∙ get-set_other (codes "validation") name note (metadata_of v.entries) ne);
          no_candidate = refl;
          no_evidence = refl;
          no_field = refl;
        },
      )
    where
      apart : text_eq (codes "error_class") (codes "validation") ≡ false
      apart = unfold text_eq in refl

  pub record_outcome-err :
      (v : DocumentVersion) (e : ValidationError)
      → v.processing_status ≡ "extracted"
      → v.writable ≡ true
      → (r : ValidationResult) × (record_outcome env schema v (err e) ≡ ok r) × IsRefused env v r e
  unfolding record_outcome
  record_outcome-err v e s w = refuse_lem v e s w

  refuse_raises :
      (v : DocumentVersion) (e : ValidationError)
      → v.processing_status ≡ "extracted"
      → v.writable ≡ false
      → refuse env schema v e ≡ err not_writable
  unfolding refuse record_failure
  refuse_raises v e s w = rw (ap (λ t. str_eq t "extracted") s, (moves_nowhere v s w).1) refl

  pub record_outcome_raises :
      (v : DocumentVersion) (c : Result ValidationError Validated)
      → v.processing_status ≡ "extracted"
      → v.writable ≡ false
      → record_outcome env schema v c ≡ err not_writable
  unfolding record_outcome accept_or_refuse
  record_outcome_raises v (err e) s w = refuse_raises v e s w
  record_outcome_raises v (ok x) s w =
      ap (accept_or_refuse env schema v x) (record_success_raises v x.id _ _ _ s w)
      ∙ refuse_raises v not_recorded s w

  pub validate_lem :
      (v : DocumentVersion) (candidate evidence : Value) (source : Option Text) (limit : Option ℤ)
      → v.processing_status ≡ "extracted"
      → validate_extracted_candidate env schema v candidate evidence source limit
        ≡ record_outcome env schema v
            (check_candidate env schema candidate evidence (fields_of v) source limit)
  unfolding validate_extracted_candidate
  validate_lem v candidate evidence source limit s = rw (ap (λ t. str_eq t "extracted") s) refl
