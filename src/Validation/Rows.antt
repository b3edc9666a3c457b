-- ===== src/Validation/Rows.antt =====
-- `_validated_evidence` of validate.py.
use inno_scalping_crawling.Common.{
  ℕ, ◌+◌, Bool, false, not, ◌||◌, if◌then◌else◌, ltb, Option, none, some, List, [], ◌∷◌, length,
  Text, codes, is_filled, strip, words, join_spaces, contains, text_eq, lookup, insert, Result, ok,
  err, raise_if, ◌>>=◌, ◌>>◌,
}
use inno_scalping_crawling.Common.Int.{ℤ}
use inno_scalping_crawling.Publication.{
  Value, Entries, null, boolean, scalar, date_time, text, mapping, sequence, end, get, one_of,
}
use inno_scalping_crawling.BriefingGate.{str}
use inno_scalping_crawling.BriefingGate.DataWindow.{zulu}
use inno_scalping_crawling.Validation.{
  ValidationError, field_missing, field_unsupported, quote_missing, quote_too_long, source_missing,
  not_in_source, other_version, other_candidate, locator_missing, too_many_quotes, time_not_iso,
  metadata_not_mapping, core_fields, quote_limit, version_id,
}
use inno_scalping_crawling.Validation.Quotes.{normalise}

-- A row of evidence; its source URL and what else its metadata says are left out.
pub record Evidence : Type 0 where
  pub evidence_id : Text
  pub document_version_id : Text
  pub strategy_candidate_id : Text
  pub field_name : Text
  pub quote : Text
  pub section_or_locator : Text
  pub captured_at : ℕ

-- What is taken from elsewhere: the `str` of a mapping or a sequence, `datetime.fromisoformat`, the
-- time, a new identifier, a file's text, the `str` of a number, and the text of an exception.
pub record Surroundings : Type 0 where
  pub repr : Value → Text
  pub fromisoformat : Text → Option ℕ
  pub now : ℕ
  pub new_id : Text
  pub read_text : Text → Option Text
  pub decimal : ℕ → Text
  pub message : ValidationError → Text

-- `_compact`
abbrev pub compact : Text → Text
compact s = join_spaces (words s)

-- `_quote_in_source`
unfoldable pub quote_in_source : Text → Option Text → Result ValidationError Bool
quote_in_source quote none = err source_missing
quote_in_source quote (some source) =
    if is_filled source
    then ok (contains quote source || contains (compact quote) (compact source))
    else err source_missing

abbrev pub filled_text : ValidationError → Option Value → Result ValidationError Text
filled_text e (some (text s)) = if is_filled s then ok (strip s) else err e
filled_text e _ = err e

abbrev or_time : Option ℕ → Result ValidationError ℕ
or_time none = err time_not_iso
or_time (some i) = ok i

module _ (env : Surroundings) where
  -- `_normalise_datetime`
  unfoldable pub normalise_datetime : Option Value → Result ValidationError ℕ
  normalise_datetime none = ok env.now
  normalise_datetime (some null) = ok env.now
  normalise_datetime (some (scalar _ _ (some (date_time i)))) = ok i
  normalise_datetime (some (text s)) =
      if is_filled s then or_time (env.fromisoformat (zulu (strip s))) else err time_not_iso
  normalise_datetime (some v) = err time_not_iso

  abbrev pub given_or : Option Value → Text → Text
  given_or none t = t
  given_or (some v) t = str env.repr v

  -- `str(value or new_id())`
  abbrev pub or_new : Option Value → Text
  or_new none = env.new_id
  or_new (some null) = env.new_id
  or_new (some (boolean false)) = env.new_id
  or_new (some (scalar s false _)) = env.new_id
  or_new (some (text [])) = env.new_id
  or_new (some (mapping end)) = env.new_id
  or_new (some (sequence end)) = env.new_id
  or_new (some v) = str env.repr v

  abbrev mapping_or_none : Option Value → Result ValidationError (Unit {0})
  mapping_or_none none = ok tt
  mapping_or_none (some null) = ok tt
  mapping_or_none (some (mapping _)) = ok tt
  mapping_or_none (some _) = err metadata_not_mapping

  -- Whether `_evidence_metadata` raises.
  unfoldable pub check_metadata : Option Value → Option Value → Result ValidationError (Unit {0})
  check_metadata none other = mapping_or_none other
  check_metadata (some null) other = mapping_or_none other
  check_metadata (some (mapping _)) other = ok tt
  check_metadata (some _) other = err metadata_not_mapping

  abbrev pub seen : Text → List (Text × ℕ) → ℕ
  seen name counts = number (lookup name counts)
    where
      number : Option ℕ → ℕ
      number none = 0
      number (some n) = n

  -- The body of the loop over the entries, for this document version and candidate.
  unfoldable pub validated_entry :
      Text → Text → Option Text → ℕ → List (Text × ℕ) → Entries → Result ValidationError Evidence
  validated_entry version candidate source limit counts item = do
    field_name ← filled_text field_missing (get (codes "field_name") item)
    raise_if (not (one_of core_fields field_name)) field_unsupported
    quote ← filled_text quote_missing (get (codes "quote") item)
    raise_if (ltb limit (length quote)) quote_too_long
    found ← quote_in_source quote source
    raise_if (not found) not_in_source
    raise_if (not (text_eq (given_or (get (codes "document_version_id") item) version) version))
        other_version
    raise_if
        (not (text_eq (given_or (get (codes "strategy_candidate_id") item) candidate) candidate))
        other_candidate
    locator ← filled_text locator_missing (get (codes "section_or_locator") item)
    raise_if (ltb 2 (seen field_name counts + 1)) too_many_quotes
    captured_at ← normalise_datetime (get (codes "captured_at") item)
    check_metadata (get (codes "metadata") item) (get (codes "metadata_json") item)
    ok (record {
      evidence_id = or_new (get (codes "evidence_id") item);
      document_version_id = version;
      strategy_candidate_id = candidate;
      field_name = field_name;
      quote = quote;
      section_or_locator = locator;
      captured_at = captured_at;
    })

  unfoldable pub validated_entries :
      Text
      → Text
      → Option Text
      → ℕ
      → List (Text × ℕ)
      → List Entries
      → Result ValidationError (List Evidence)
  validated_entries version candidate source limit counts [] = ok []
  validated_entries version candidate source limit counts (item ∷ items) =
      validated_entry version candidate source limit counts item >>= λ row.
      validated_entries version candidate source limit
        (insert row.field_name (seen row.field_name counts + 1) counts) items
      >>= λ rows. ok (row ∷ rows)

  unfoldable pub validated_from :
      Value → Text → Option Text → Option ℤ → List Entries → Result ValidationError (List Evidence)
  validated_from version candidate source limit [] = ok []
  validated_from version candidate source limit (item ∷ items) = do
    id ← version_id env.repr version
    most ← quote_limit limit
    validated_entries id candidate source most [] (item ∷ items)

  -- `_validated_evidence`
  unfoldable pub validated_evidence :
      Value → Value → Text → Option Text → Option ℤ → Result ValidationError (List Evidence)
  validated_evidence evidence version candidate source limit =
      normalise none evidence >>= λ entries. validated_from version candidate source limit entries
