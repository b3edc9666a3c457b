-- ===== src/Validation/Trusted.antt =====
-- The order of the checks in `validate_extracted_candidate` of validate.py.
use mathlib.Core.Path.{subst}
use inno_scalping_crawling.Common.{
  ◌≡◌, ◌≢◌, inl, inr, refl, Bool, false, not, Option, List, [], ◌∷◌, arith, Text, codes, Result, ok,
  raise_if, Result-cases, Bool-cases, ◌>>=◌, ◌>>◌,
}
use inno_scalping_crawling.Common.Int.{ℤ}
use inno_scalping_crawling.Publication.{
  Value, null, boolean, scalar, text, mapping, sequence, field,
}
use inno_scalping_crawling.Validation.{
  ValidationError, version_id, candidate_id, version_not_listed, no_evidence,
}
use inno_scalping_crawling.Validation.Rows.{Evidence, Surroundings, validated_evidence}
use inno_scalping_crawling.Validation.Outcome.{
  Validated, check_candidate, given, lists_version, evidence_of, given_text, document_text,
  text_names, is_nil,
}

-- What the body of the `try` has found out when it ends.
pub record IsChecked (env : Surroundings) (schema : Value → Result ValidationError Value)
    (candidate evidence fields : Value) (source : Option Text) (limit : Option ℤ) (x : Validated)
    : Type 0 where
  pub checked : schema candidate ≡ ok x.payload
  pub identified : candidate_id env.repr x.payload ≡ ok x.id
  pub validated :
      validated_evidence env
        (evidence_of evidence candidate x.payload)
        fields
        x.id
        (given_text source (document_text env text_names fields))
        limit
      ≡ ok x.rows
  pub some_row : x.rows ≢ []

check_chain :
    (p : Result ValidationError Value) (c : Value → Result ValidationError Value)
    (i : Value → Result ValidationError Text) (v : Result ValidationError Text)
    (b : Value → Text → Bool) (rows : Value → Text → Result ValidationError (List Evidence))
    (x : Validated)
    → (do
      payload ← p
      checked ← c payload
      id ← i checked
      version ← v
      raise_if (b checked version) version_not_listed
      l ← rows checked id
      raise_if (is_nil l) no_evidence
      ok (record { payload = checked; id = id; rows = l }))
      ≡ ok x
    → (payload : Value) × (p ≡ ok payload)
      × (c payload ≡ ok x.payload)
      × (i x.payload ≡ ok x.id)
      × (rows x.payload x.id ≡ ok x.rows)
      × (is_nil x.rows ≡ false)
check_chain (ok payload) c i (ok version) b rows x h = elim (Result-cases (c payload)) [
  | inr (e, bad) ↦ absurd (ground arith)
  | inl (checked, ec) ↦ elim (Result-cases (i checked)) [
    | inr (e, bad) ↦ absurd (ground arith)
    | inl (id, ei) ↦ elim (Bool-cases (b checked version)) [
      | inl bad ↦ absurd (ground arith)
      | inr listed ↦ elim (Result-cases (rows checked id)) [
        | inr (e, bad) ↦ absurd (ground arith)
        | inl (l, el) ↦ elim (Bool-cases (is_nil l)) [
          | inl bad ↦ absurd (ground arith)
          | inr more ↦
              let same : record { payload = checked; id = id; rows = l } ≡ x = ground arith in
              (
                payload,
                refl,
                subst (λ (y : Validated). c payload ≡ ok y.payload) same ec,
                subst (λ (y : Validated). i y.payload ≡ ok y.id) same ei,
                subst (λ (y : Validated). rows y.payload y.id ≡ ok y.rows) same el,
                subst (λ (y : Validated). is_nil y.rows ≡ false) same more,
              )
        ]
      ]
    ]
  ]
]
check_chain _ c i v b rows x h = absurd (ground arith)

given_lem :
    (env : Surroundings) (schema : Value → Result ValidationError Value) (v w : Value)
    → given env schema v ≡ ok w
    → w ≡ v
given_lem env schema null w h = absurd (ground arith)
given_lem env schema (boolean b) w h = ground arith
given_lem env schema (scalar s t m) w h = ground arith
given_lem env schema (text s) w h = ground arith
given_lem env schema (mapping es) w h = ground arith
given_lem env schema (sequence es) w h = ground arith

not_nil : (l : List Evidence) → is_nil l ≡ false → l ≢ []
not_nil [] h e = ground arith
not_nil (x ∷ l) h e = ground arith

pub check_candidate_lem :
    (env : Surroundings) (schema : Value → Result ValidationError Value)
    (candidate evidence fields : Value) (source : Option Text) (limit : Option ℤ) (x : Validated)
    → check_candidate env schema candidate evidence fields source limit ≡ ok x
    → IsChecked env schema candidate evidence fields source limit x
unfolding check_candidate
check_candidate_lem env schema candidate evidence fields source limit x h =
    let (payload, ep, ec, ei, er, more) =
      check_chain (given env schema candidate) schema (candidate_id env.repr)
        (version_id env.repr fields)
        (λ checked version.
          not (lists_version version (field checked (codes "document_version_ids"))))
        (λ checked id.
          validated_evidence env (evidence_of evidence candidate checked) fields id
            (given_text source (document_text env text_names fields)) limit)
        x h in
    record {
      checked = subst (λ v. schema v ≡ ok x.payload) (given_lem env schema candidate payload ep) ec;
      identified = ei;
      validated = er;
      some_row = not_nil x.rows more;
    }
