-- ===== src/Validation/Recording.antt =====
-- What validate.py writes on a document version: `_set_state`, `_store_metadata`, `_record_success`
-- and `_record_failure`.
use inno_scalping_crawling.Common.{
  ℕ, String, str_eq, Bool, true, false, not, Option, none, some, List, [], ◌∷◌, ◌==◌, if◌then◌else◌,
  Text, codes, text_eq, Result, ok, err, ◌>>=◌,
}
use inno_scalping_crawling.StateMachine.{InvalidTransition, transition}
use inno_scalping_crawling.StateMachine
use inno_scalping_crawling.Publication.{
  Value, Entries, null, scalar, text, mapping, sequence, end, entry, get,
}
use inno_scalping_crawling.Validation.{ValidationError, class_name, error_class}
use inno_scalping_crawling.Validation.Rows.{Surroundings}

-- A document version: a mapping or an object with attributes, whether it can be written to, its
-- state as `_state` reads it, and its other entries. It can be written to as a whole or not at all.
pub record DocumentVersion : Type 0 where
  pub is_mapping : Bool
  pub writable : Bool
  pub processing_status : String
  pub entries : Entries

-- The version apart from its state, as a value.
abbrev pub fields_of : DocumentVersion → Value
fields_of v = mapping v.entries

-- The errors that leave the function: its own check of the state, that of a transition, and what a
-- version that cannot be written to raises.
pub data StateError : Type 0 where
  not_extracted not_writable : StateError
  refused : InvalidTransition → StateError

abbrev lift_state : {A : Type 0} → Result InvalidTransition A → Result StateError A
lift_state (ok a) = ok a
lift_state (err e) = err (refused e)

-- `_set_state`
unfoldable pub set_state : DocumentVersion → String → Result StateError DocumentVersion
set_state v target =
    let moved =
      lift_state (transition (StateMachine.text v.processing_status) (StateMachine.text target)) in
    let written =
      if v.writable then ok (record v { processing_status = target }) else err not_writable in
    if str_eq v.processing_status target then ok v else moved >>= λ _. written

-- `value[key] = ...` and `setattr`
unfoldable pub set_entry : Text → Value → Entries → Entries
set_entry key value end = entry key value end
set_entry key value (entry k v rest) =
    let later = set_entry key value rest in
    if text_eq k key then entry k value rest else entry k v later

abbrev pub as_mapping : Option Value → Entries
as_mapping (some (mapping m)) = m
as_mapping _ = end

abbrev pub not_null : Option Value → Option Value → Option Value
not_null none other = other
not_null (some null) other = other
not_null (some v) other = some v

-- `_metadata`
unfoldable pub metadata_of : Entries → Entries
metadata_of entries =
    as_mapping (not_null (get (codes "metadata_json") entries) (get (codes "metadata") entries))

abbrev pub is_there : Option Value → Bool
is_there none = false
is_there (some _) = true

-- What `_store_metadata` makes of the entries: a mapping has its metadata under one or two keys.
unfoldable pub stored : Bool → Entries → Entries → Entries
stored false payload entries = set_entry (codes "metadata_json") (mapping payload) entries
stored true payload entries =
    let first = set_entry (codes "metadata") (mapping payload) entries in
    if is_there (get (codes "metadata_json") first)
    then set_entry (codes "metadata_json") (mapping payload) first
    else first

-- `_store_metadata`
unfoldable pub store_metadata : DocumentVersion → Entries → Result StateError DocumentVersion
store_metadata v payload =
    if v.writable
    then ok (record v { entries = stored v.is_mapping payload v.entries })
    else err not_writable

abbrev pub texts : List Text → Entries
texts [] = end
texts (s ∷ rest) = entry [] (text s) (texts rest)

abbrev pub reason_note : List Text → Entries
reason_note [] = entry (codes "reason") (text (codes "no_publishable_fields")) end
reason_note (_ ∷ _) = end

module _ (env : Surroundings) where
  -- `validation_metadata`
  unfoldable pub success_note : Text → ℕ → List Text → List Text → Value
  success_note id count fields excluded = mapping (
      entry (codes "status") (text (codes "validated")) (
        entry (codes "candidate_id") (text id) (
          entry (codes "evidence_count") (scalar (env.decimal count) (not (count == 0)) none) (
            entry (codes "publishable_fields") (sequence (texts fields))
              (entry (codes "excluded_fields") (sequence (texts excluded)) (reason_note fields))))))

  unfoldable pub failure_note : ValidationError → Value
  failure_note e = mapping (
      entry (codes "status") (text (codes "failed")) (
        entry (codes "error_class") (text (class_name (error_class e)))
          (entry (codes "error") (text (env.message e)) end)))

  -- `_record_success`
  unfoldable pub record_success :
      DocumentVersion → Text → ℕ → List Text → List Text → Result StateError DocumentVersion
  record_success v id count fields excluded = set_state v "validated" >>= λ moved.
      store_metadata moved (
        set_entry (codes "validation") (success_note id count fields excluded)
          (metadata_of moved.entries))

  -- `_record_failure`
  unfoldable pub record_failure :
      DocumentVersion → ValidationError → Result StateError DocumentVersion
  record_failure v e =
      (if str_eq v.processing_status "extracted" then set_state v "failed" else ok v) >>= λ moved.
      store_metadata moved (
        set_entry (codes "error_class") (text (class_name (error_class e)))
          (set_entry (codes "validation") (failure_note e) (metadata_of moved.entries)))
