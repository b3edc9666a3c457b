-- ===== src/Validation/Examples.antt =====
-- A candidate with one quote through validate.py.
use inno_scalping_crawling.Common.{
  ◌≡◌, inl, refl, true, false, none, some, [], ◌∷◌, ◌++◌, In, codes, Result, ok, strip, drop_spaces,
  is_space, is_filled, text_eq, words, join_spaces, contains, lookup, insert,
}
use inno_scalping_crawling.Common.Int.{pos}
use inno_scalping_crawling.StateMachine.{transition, state_value, find_state, value, is_listed}
use inno_scalping_crawling.Publication.{Value, text, mapping, sequence, end, entry, get, field}
use inno_scalping_crawling.Validation.{
  ValidationError, core_fields, container_keys, quote_limit, version_id, candidate_id,
}
use inno_scalping_crawling.Validation.Quotes.{normalise, listed, set_default}
use inno_scalping_crawling.Validation.Rows.{
  Evidence, Surroundings, quote_in_source, normalise_datetime, validated_entry, validated_entries,
  validated_from, validated_evidence, check_metadata,
}
use inno_scalping_crawling.Validation.Outcome.{
  accept_or_refuse, ValidationResult, is_publishable, publishable_fields, evidence_of,
  document_text, text_names, safe_payload, check_candidate, record_outcome,
  validate_extracted_candidate, about, has_value, is_text, field_status,
}
use inno_scalping_crawling.Validation.Recording.{
  DocumentVersion, set_state, set_entry, metadata_of, stored, store_metadata, success_note,
  record_success,
}
use inno_scalping_crawling.Validation.Accepted.{validate_extracted_candidate-publishable}

abbrev env : Surroundings
env = record {
  repr = λ v. [];
  fromisoformat = λ s. none;
  now = 7;
  new_id = codes "e1";
  read_text = λ path. none;
  decimal = λ n. codes "1";
  message = λ e. [];
}

-- Every payload fits.
abbrev no_schema : Value → Result ValidationError Value
no_schema v = ok v

abbrev candidate : Value
candidate = mapping (
    entry (codes "candidate_id") (text (codes "c1")) (
      entry (codes "entry_logic") (text (codes "buy"))
        (entry (codes "entry_logic_status") (text (codes "explicit")) end)))

abbrev quote : Value
quote = mapping (
    entry (codes "field_name") (text (codes "entry_logic")) (
      entry (codes "quote") (text (codes "buy  the dip"))
        (entry (codes "section_or_locator") (text (codes "p1")) end)))

abbrev version : DocumentVersion
version = record {
  is_mapping = true;
  writable = true;
  processing_status = "extracted";
  entries =
      entry (codes "document_version_id") (text (codes "v1"))
        (entry (codes "text") (text (codes "we buy the dip")) end);
}

abbrev outcome : ValidationResult
outcome =
    let excluded =
      codes "core_hypothesis"
      ∷ codes "signal_inputs"
      ∷ codes "exit_logic"
      ∷ codes "required_data"
      ∷ codes "risk_notes"
      ∷ [] in
    record {
      candidate = some candidate;
      evidence =
          record {
            evidence_id = codes "e1";
            document_version_id = codes "v1";
            strategy_candidate_id = codes "c1";
            field_name = codes "entry_logic";
            quote = codes "buy  the dip";
            section_or_locator = codes "p1";
            captured_at = 7;
          }
          ∷ [];
      document_version = record version {
        processing_status = "validated";
        entries = entry (codes "document_version_id") (text (codes "v1")) (
            entry (codes "text") (text (codes "we buy the dip")) (
              entry (codes "metadata")
                (mapping (
                  entry (codes "validation")
                    (success_note env (codes "c1") 1 (codes "entry_logic" ∷ []) excluded) end))
                end));
      };
      publishable_fields = codes "entry_logic" ∷ [];
      excluded_fields = excluded;
      error = none;
    }

passes :
    validate_extracted_candidate env no_schema version candidate
      (sequence (entry [] quote end))
      none
      (some (pos 300))
    ≡ ok outcome
unfolding transition state_value find_state value is_listed get field core_fields container_keys
    quote_limit version_id candidate_id normalise listed set_default quote_in_source
    normalise_datetime validated_entry validated_entries validated_from validated_evidence
    check_metadata set_state set_entry metadata_of stored store_metadata success_note record_success
    is_publishable publishable_fields evidence_of document_text text_names safe_payload
    check_candidate record_outcome accept_or_refuse validate_extracted_candidate strip drop_spaces
    is_space is_filled text_eq words join_spaces contains lookup insert
passes = refl

validate_extracted_candidate-publishable_example :
    (payload : Value) × (no_schema candidate ≡ ok payload)
    × In (codes "entry_logic") core_fields
    × ((row : Evidence) × In row outcome.evidence × (about (codes "entry_logic") row ≡ true))
    × (has_value (field payload (codes "entry_logic")) ≡ true)
    × (is_text
          (codes "explicit" ∷ codes "inferred" ∷ [])
          (field payload (codes "entry_logic" ++ codes "_status"))
        ≡ true)
    × (is_text
          (codes "unknown" ∷ codes "conflicting" ∷ codes "not_applicable" ∷ [])
          (field_status payload (codes "entry_logic"))
        ≡ false)
validate_extracted_candidate-publishable_example =
    validate_extracted_candidate-publishable env no_schema version candidate
      (sequence (entry [] quote end)) none (some (pos 300)) outcome (codes "entry_logic") refl
      passes refl (inl refl)
