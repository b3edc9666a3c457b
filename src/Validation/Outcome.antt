-- ===== src/Validation/Outcome.antt =====
-- `validate_extracted_candidate` of validate.py with what it records on the document version. The
-- arguments are as `_unpack_inputs` leaves them; a candidate is a mapping.
use inno_scalping_crawling.Common.{
  str_eq, Bool, true, false, not, ◌&&◌, ◌||◌, if◌then◌else◌, Option, none, some, List, [], ◌∷◌,
  ◌++◌, any, keep, length, Text, codes, contains, text_eq, Result, ok, err, raise_if, ◌>>=◌, ◌>>◌,
}
use inno_scalping_crawling.Common.Int.{ℤ}
use inno_scalping_crawling.Publication.{
  Value, Entries, null, text, mapping, sequence, end, entry, field, one_of,
}
use inno_scalping_crawling.Validation.{
  ValidationError, candidate_missing, version_not_listed, no_evidence, not_recorded, core_fields,
  candidate_id, version_id,
}
use inno_scalping_crawling.Validation.Rows.{Evidence, Surroundings, validated_evidence}
use inno_scalping_crawling.Validation.Recording.{
  DocumentVersion, StateError, not_extracted, fields_of, record_success, record_failure,
}

pub record ValidationResult : Type 0 where
  pub candidate : Option Value
  pub evidence : List Evidence
  pub document_version : DocumentVersion
  pub publishable_fields : List Text
  pub excluded_fields : List Text
  pub error : Option ValidationError

abbrev pub has_value : Option Value → Bool
has_value none = false
has_value (some null) = false
has_value (some (text [])) = false
has_value (some (mapping end)) = false
has_value (some (sequence end)) = false
has_value (some v) = true

-- The schema makes the statuses texts.
abbrev pub is_text : List Text → Option Value → Bool
is_text words (some (text s)) = one_of words s
is_text words _ = false

abbrev pub field_status : Value → Text → Option Value
field_status payload name = named (field payload (codes "field_status"))
  where
    named : Option Value → Option Value
    named none = none
    named (some v) = field v name

abbrev pub about : Text → Evidence → Bool
about name row = text_eq row.field_name name

-- The test of the loop in `_publishable_fields`.
unfoldable pub is_publishable : Value → List Evidence → Text → Bool
is_publishable payload rows name =
    any (about name) rows
    && (has_value (field payload name)
        && (is_text (codes "explicit" ∷ codes "inferred" ∷ [])
              (field payload (name ++ codes "_status"))
            && not (
                is_text (codes "unknown" ∷ codes "conflicting" ∷ codes "not_applicable" ∷ [])
                  (field_status payload name))))

-- `_publishable_fields`
unfoldable pub publishable_fields : Value → List Evidence → List Text
publishable_fields payload rows = keep (is_publishable payload rows) core_fields

abbrev entry_is : Text → Entries → Bool
entry_is id end = false
entry_is id (entry k _ rest) = text_eq k id || entry_is id rest

abbrev value_is : Text → Entries → Bool
value_is id end = false
value_is id (entry _ (text s) rest) = text_eq s id || value_is id rest
value_is id (entry _ _ rest) = value_is id rest

-- `version_id not in candidate_version_ids`, which raises on a value that holds nothing.
abbrev pub lists_version : Text → Option Value → Bool
lists_version id none = true
lists_version id (some null) = true
lists_version id (some (sequence entries)) = value_is id entries
lists_version id (some (mapping entries)) = entry_is id entries
lists_version id (some (text s)) = contains id s
lists_version id (some _) = false

abbrev or_metadata : Option Value → Option Value → Value
or_metadata (some null) other = or_metadata_only other
  where
    or_metadata_only : Option Value → Value
    or_metadata_only none = null
    or_metadata_only (some v) = v
or_metadata (some v) other = v
or_metadata none none = null
or_metadata none (some v) = v

abbrev evidence_in_metadata : Value → Option Value
evidence_in_metadata payload = in_metadata (field payload (codes "metadata"))
  where
    in_metadata : Option Value → Option Value
    in_metadata none = none
    in_metadata (some v) = field v (codes "evidence")

-- Where the evidence is looked for.
unfoldable pub evidence_of : Value → Value → Value → Value
evidence_of null candidate payload =
    or_metadata (field candidate (codes "evidence")) (evidence_in_metadata payload)
evidence_of v candidate payload = v

-- `_document_text`
unfoldable pub text_names : List Text
text_names =
    codes "normalized_text"
    ∷ codes "normalized_body"
    ∷ codes "text"
    ∷ codes "body"
    ∷ codes "content"
    ∷ []

abbrev text_or : Option Value → Option Text → Option Text
text_or (some (text s)) rest = some s
text_or _ rest = rest

abbrev file_text : Surroundings → Option Value → Option Text
file_text env (some (text (c ∷ s))) = env.read_text (c ∷ s)
file_text env _ = none

unfoldable pub document_text : Surroundings → List Text → Value → Option Text
document_text env [] fields = file_text env (field fields (codes "normalized_location"))
document_text env (name ∷ names) fields =
    text_or (field fields name) (document_text env names fields)

abbrev pub given_text : Option Text → Option Text → Option Text
given_text none other = other
given_text (some s) other = some s

abbrev pub is_nil : {A : Type 0} → List A → Bool
is_nil [] = true
is_nil (_ ∷ _) = false

abbrev without_evidence : Entries → Entries
without_evidence end = end
without_evidence (entry k v rest) =
    let later = without_evidence rest in
    if text_eq k (codes "evidence") then later else entry k v later

-- `safe_payload`: the metadata of the candidate without the evidence.
unfoldable pub safe_payload : Entries → Entries
safe_payload end = end
safe_payload (entry k (mapping m) rest) =
    let later = safe_payload rest in
    if text_eq k (codes "metadata")
    then entry k (mapping (without_evidence m)) later
    else entry k (mapping m) later
safe_payload (entry k v rest) = entry k v (safe_payload rest)

abbrev pub safe : Value → Value
safe (mapping entries) = mapping (safe_payload entries)
safe v = v

-- What is validated before anything is recorded: the payload, its id and the evidence.
pub record Validated : Type 0 where
  pub payload : Value
  pub id : Text
  pub rows : List Evidence

-- The schema check (llm/schema_guard.py), which gives the payload or refuses it.
module _ (env : Surroundings) (schema : Value → Result ValidationError Value) where
  abbrev pub given : Value → Result ValidationError Value
  given null = err candidate_missing
  given v = ok v

  -- The body of the `try`, up to the test for evidence.
  unfoldable pub check_candidate :
      Value → Value → Value → Option Text → Option ℤ → Result ValidationError Validated
  check_candidate candidate evidence fields source limit = do
    payload ← given candidate
    checked ← schema payload
    id ← candidate_id env.repr checked
    version ← version_id env.repr fields
    raise_if (not (lists_version version (field checked (codes "document_version_ids"))))
        version_not_listed
    rows ←
        validated_evidence env (evidence_of evidence candidate checked) fields id
          (given_text source (document_text env text_names fields)) limit
    raise_if (is_nil rows) no_evidence
    ok (record { payload = checked; id = id; rows = rows })

  -- `_record_failure` with the result that follows.
  unfoldable pub refuse : DocumentVersion → ValidationError → Result StateError ValidationResult
  refuse v e = record_failure env v e >>= λ moved. ok (record {
    candidate = none;
    evidence = [];
    document_version = moved;
    publishable_fields = [];
    excluded_fields = core_fields;
    error = some e;
  })

  -- What follows `_record_success`; what it raises is a failure.
  unfoldable pub accept_or_refuse :
      DocumentVersion
      → Validated
      → Result StateError DocumentVersion
      → Result StateError ValidationResult
  accept_or_refuse v checked (err _) = refuse v not_recorded
  accept_or_refuse v checked (ok moved) =
      let fields = publishable_fields checked.payload checked.rows in
      ok (record {
        candidate = some (safe checked.payload);
        evidence = checked.rows;
        document_version = moved;
        publishable_fields = fields;
        excluded_fields = keep (λ name. not (one_of fields name)) core_fields;
        error = none;
      })

  -- What is done after the checks.
  unfoldable pub record_outcome :
      DocumentVersion → Result ValidationError Validated → Result StateError ValidationResult
  record_outcome v (err e) = refuse v e
  record_outcome v (ok checked) =
      let fields = publishable_fields checked.payload checked.rows in
      let excluded = keep (λ name. not (one_of fields name)) core_fields in
      accept_or_refuse v checked
        (record_success env v checked.id (length checked.rows) fields excluded)

  unfoldable pub validate_extracted_candidate :
      DocumentVersion → Value → Value → Option Text → Option ℤ → Result StateError ValidationResult
  validate_extracted_candidate v candidate evidence source limit = do
    raise_if (not (str_eq v.processing_status "extracted")) not_extracted
    record_outcome v (check_candidate candidate evidence (fields_of v) source limit)
