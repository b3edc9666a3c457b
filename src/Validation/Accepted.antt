-- ===== src/Validation/Accepted.antt =====
-- What a validated candidate is like, and its publishable fields (validate.py).
use mathlib.Core.Path.{subst}
use inno_scalping_crawling.Common.{
  ◌≡◌, inl, inr, sym, ap, ◌∙◌, Bool, true, false, not, ◌&&◌, Option, none, some, [], ◌∷◌, arith,
  any, In, keep-In, any-In, ◌++◌, Text, codes, Result, ok, Result-cases, Bool-cases, ok_inj,
}
use inno_scalping_crawling.Common.Int.{ℤ}
use inno_scalping_crawling.Publication.{Value, field}
use inno_scalping_crawling.Validation.{ValidationError, core_fields}
use inno_scalping_crawling.Validation.Rows.{Evidence, Surroundings}
use inno_scalping_crawling.Validation.Trusted.{IsChecked, check_candidate_lem}
use inno_scalping_crawling.Validation.Outcome.{
  is_publishable, has_value, is_text, field_status, ValidationResult, Validated, check_candidate,
  record_outcome, validate_extracted_candidate, publishable_fields, about,
}
use inno_scalping_crawling.Validation.Recording.{DocumentVersion, fields_of}
use inno_scalping_crawling.Validation.Ends.{
  record_outcome-ok, record_outcome-err, record_outcome_raises, validate_lem,
}

module _ (env : Surroundings) (schema : Value → Result ValidationError Value) where
  is_writable :
      (v : DocumentVersion) (checks : Result ValidationError Validated) (r : ValidationResult)
      → v.processing_status ≡ "extracted"
      → record_outcome env schema v checks ≡ ok r
      → v.writable ≡ true
  is_writable v checks r s h = elim (Bool-cases v.writable) [
    | inl may ↦ may
    | inr closed ↦ absurd (ground (arith, record_outcome_raises env schema v checks s closed))
  ]

  accepted_lem :
      (v : DocumentVersion) (candidate evidence : Value) (source : Option Text) (limit : Option ℤ)
      (r : ValidationResult)
      → v.processing_status ≡ "extracted"
      → validate_extracted_candidate env schema v candidate evidence source limit ≡ ok r
      → r.error ≡ none
      → (x : Validated) × IsChecked env schema candidate evidence (fields_of v) source limit x
        × (r.evidence ≡ x.rows)
        × (r.publishable_fields ≡ publishable_fields x.payload x.rows)
  accepted_lem v candidate evidence source limit r s h fine =
      let run = validate_extracted_candidate env schema v candidate evidence source limit in
      let w =
        is_writable v (check_candidate env schema candidate evidence (fields_of v) source limit) r s
          (sym (validate_lem env schema v candidate evidence source limit s) ∙ h) in
      elim (Result-cases
        (check_candidate env schema candidate evidence (fields_of v) source limit)) [
          | inl (x, good) ↦
              let checked =
                check_candidate_lem env schema candidate evidence (fields_of v) source limit x
                  good in
              let (r', h', _, ee, ep) = record_outcome-ok env schema v x s w checked.some_row in
              let same =
                ok_inj r' r run
                  (validate_lem env schema v candidate evidence source limit s
                    ∙ ap (record_outcome env schema v) good
                    ∙ h')
                  h in
              (
                x,
                checked,
                subst (λ (y : ValidationResult). y.evidence ≡ x.rows) same ee,
                subst
                    (λ (y : ValidationResult).
                      y.publishable_fields ≡ publishable_fields x.payload x.rows)
                    same ep,
              )
          | inr (e, bad) ↦
              let (r', h', refused) = record_outcome-err env schema v e s w in
              let same =
                ok_inj r' r run
                  (validate_lem env schema v candidate evidence source limit s
                    ∙ ap (record_outcome env schema v) bad
                    ∙ h')
                  h in
              absurd (
                none_some e (
                  sym fine
                  ∙ subst (λ (y : ValidationResult). y.error ≡ some e) same refused.reported))
        ]
    where
      none_some : (e : ValidationError) → none ≡ some e → ⊥
      none_some e h = ground arith

  -- A field of a validated candidate is publishable only with evidence: there is a row about it among
  -- the evidence that comes back, the field has a value, its status is explicit or inferred, and the
  -- statuses by field do not call it unknown, conflicting or not applicable.
  pub validate_extracted_candidate-publishable :
      (v : DocumentVersion) (candidate evidence : Value) (source : Option Text) (limit : Option ℤ)
      (r : ValidationResult) (name : Text)
      → v.processing_status ≡ "extracted"
      → validate_extracted_candidate env schema v candidate evidence source limit ≡ ok r
      → r.error ≡ none
      → In name r.publishable_fields
      → (payload : Value) × (schema candidate ≡ ok payload)
        × In name core_fields
        × ((row : Evidence) × In row r.evidence × (about name row ≡ true))
        × (has_value (field payload name) ≡ true)
        × (is_text
              (codes "explicit" ∷ codes "inferred" ∷ [])
              (field payload (name ++ codes "_status"))
            ≡ true)
        × (is_text
              (codes "unknown" ∷ codes "conflicting" ∷ codes "not_applicable" ∷ [])
              (field_status payload name)
            ≡ false)
  unfolding publishable_fields is_publishable
  validate_extracted_candidate-publishable v candidate evidence source limit r name s h fine m =
      let (x, checked, same, listed) = accepted_lem v candidate evidence source limit r s h fine in
      let (core, test) =
        keep-In (is_publishable x.payload x.rows) name core_fields (subst (In name) listed m) in
      let (some_row, valued, stated, clear) =
        all_of (any (about name) x.rows) (has_value (field x.payload name))
          (is_text (codes "explicit" ∷ codes "inferred" ∷ [])
            (field x.payload (name ++ codes "_status")))
          (is_text (codes "unknown" ∷ codes "conflicting" ∷ codes "not_applicable" ∷ [])
            (field_status x.payload name))
          test in
      (
        x.payload,
        checked.checked,
        core,
        subst (λ rows. (row : Evidence) × In row rows × (about name row ≡ true)) (sym same)
            (any-In (about name) x.rows some_row),
        valued,
        stated,
        clear,
      )
    where
      all_of :
          (a b c d : Bool)
          → (a && (b && (c && not d))) ≡ true
          → (a ≡ true) × (b ≡ true) × (c ≡ true) × (d ≡ false)
      all_of a b c d h = ground arith
