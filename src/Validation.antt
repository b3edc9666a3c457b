-- ===== src/Validation.antt =====
-- src/scalping_briefing/pipeline/validate.py: whether an extracted candidate and its evidence can be
-- trusted. The values are those of publishing/gate.py, with an object as the mapping of its
-- attributes.
pub mod Quotes
pub mod Rows
pub mod Recording
pub mod Outcome
pub mod Trusted
pub mod Entry
pub mod Evidences
pub mod Notes
pub mod Ends
pub mod Accepted
mod Examples
use inno_scalping_crawling.Common.{
  ℕ, ◌||◌, if◌then◌else◌, ltb, Option, none, some, List, [], ◌∷◌, Text, codes, is_filled, strip,
  Result, ok, err, raise_if, ◌>>=◌, ◌>>◌,
}
use inno_scalping_crawling.Common.Int.{ℤ, pos, negsuc}
use inno_scalping_crawling.Publication.{Value, null, field}
use inno_scalping_crawling.BriefingGate.{str}

-- `CandidateValidationError` and its subclass `EvidenceValidationError`; `not_recorded` is any other
-- exception of the body.
pub data ValidationError : Type 0 where
  candidate_missing candidate_id_missing version_not_listed schema_refused : ValidationError
  version_id_missing field_missing field_unsupported quote_missing quote_too_long : ValidationError
  source_missing not_in_source other_version other_candidate locator_missing : ValidationError
  too_many_quotes time_not_iso metadata_not_mapping limit_invalid no_evidence : ValidationError
  not_recorded : ValidationError

pub data ErrorClass : Type 0 where
  schema_validation_error candidate_validation_failed evidence_contract_failed : ErrorClass

-- The `error_class` of the exceptions.
abbrev pub error_class : ValidationError → ErrorClass
error_class candidate_missing = candidate_validation_failed
error_class candidate_id_missing = candidate_validation_failed
error_class version_not_listed = candidate_validation_failed
error_class schema_refused = schema_validation_error
error_class not_recorded = candidate_validation_failed
error_class _ = evidence_contract_failed

abbrev pub class_name : ErrorClass → Text
class_name schema_validation_error = codes "schema_validation_error"
class_name candidate_validation_failed = codes "candidate_validation_failed"
class_name evidence_contract_failed = codes "evidence_contract_failed"

-- `CORE_FIELDS`
unfoldable pub core_fields : List Text
core_fields =
    codes "core_hypothesis"
    ∷ codes "signal_inputs"
    ∷ codes "entry_logic"
    ∷ codes "exit_logic"
    ∷ codes "required_data"
    ∷ codes "risk_notes"
    ∷ []

-- `EVIDENCE_CONTAINER_KEYS`
unfoldable pub container_keys : List Text
container_keys =
    codes "accepted_evidence"
    ∷ codes "accepted_quotes"
    ∷ codes "evidence"
    ∷ codes "items"
    ∷ codes "quotes"
    ∷ codes "records"
    ∷ []

abbrev pub max_quote_chars : ℕ
max_quote_chars = 300

-- `_quote_limit`; the given or the configured limit is an integer, or `none` if it is not.
unfoldable pub quote_limit : Option ℤ → Result ValidationError ℕ
quote_limit none = err limit_invalid
quote_limit (some (negsuc n)) = err limit_invalid
quote_limit (some (pos n)) = do raise_if (ltb n 1 || ltb max_quote_chars n) limit_invalid; ok n

abbrev required : (Value → Text) → ValidationError → Option Value → Result ValidationError Text
required repr e none = err e
required repr e (some null) = err e
required repr e (some v) = if is_filled (str repr v) then ok (strip (str repr v)) else err e

-- `_version_id` and `_candidate_id`
unfoldable pub version_id : (Value → Text) → Value → Result ValidationError Text
version_id repr fields =
    required repr version_id_missing (field fields (codes "document_version_id"))

unfoldable pub candidate_id : (Value → Text) → Value → Result ValidationError Text
candidate_id repr payload =
    required repr candidate_id_missing (field payload (codes "candidate_id"))
