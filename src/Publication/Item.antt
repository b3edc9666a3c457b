-- ===== src/Publication/Item.antt =====
-- `validate_briefing_item` and `validate_publication` of gate.py.
use inno_scalping_crawling.Common.{
  ℕ, Bool, true, false, not, ◌&&◌, ◌||◌, Option, none, some, List, [], ◌∷◌, Result, ok, err,
  raise_if, ltb, if◌then◌else◌, Text, codes, is_empty, any, length, ◌>>=◌, ◌>>◌,
}
use inno_scalping_crawling.Publication.{
  Value, text, field, or_null, filled, has_full_text, records, asserts_nothing, SplitResult,
  safe_source_link, present, link_names, source_link_values, values, sequence,
}

-- `PublicationPhraseError` is raised by the phrase lint.
pub data GateError : Type 0 where
  limits_too_wide limits_not_positive full_text missing_evidence too_many_quotes : GateError
  version_missing quote_empty quote_too_long unsafe_link no_source_link banned_phrase no_items :
      GateError

abbrev pub max_evidence_quotes : ℕ
max_evidence_quotes = 2

abbrev pub max_quote_length : ℕ
max_quote_length = 300

abbrev pub quote_error : ℕ → Option Value → Option GateError
quote_error max_chars (some (text s)) =
    if is_empty s
    then some quote_empty
    else if ltb max_chars (length s)
    then some quote_too_long
    else none
quote_error max_chars _ = some quote_empty

abbrev pub raise_some : Option GateError → Result GateError (Unit {0})
raise_some none = ok tt
raise_some (some e) = err e

abbrev pub is_nil : List Value → Bool
is_nil [] = true
is_nil (_ ∷ _) = false

abbrev items_or : Value → Option Value → Option Value → Result GateError (List Value)
items_or publication (some items) _ = ok (records items)
items_or publication none (some _) = ok (publication ∷ [])
items_or publication none none = err no_items

-- `_publication_items`
unfoldable pub publication_items : Value → Result GateError (List Value)
publication_items (sequence items) = ok (values items)
publication_items publication =
    items_or publication (field publication (codes "items")) (field publication (codes "evidence"))

-- `urlsplit`, and whether the phrase lint (publishing/phrase_lint.py) finds a banned phrase in the
-- text of a value that can reach the renderer.
module _ (urlsplit : Text → Option SplitResult) (lint : Value → Bool) where
  abbrev pub is_unsafe_link : Value → Bool
  is_unsafe_link link = filled link && not (safe_source_link urlsplit link)

  -- The body of the loop over the evidence; the result says whether a link is safe.
  unfoldable pub check_evidence : ℕ → Value → Result GateError Bool
  check_evidence max_chars r = do
    raise_if (not (filled (or_null (field r (codes "document_version_id"))))) version_missing
    raise_some (quote_error max_chars (field r (codes "quote")))
    raise_if (any is_unsafe_link (source_link_values r)) unsafe_link
    ok (any (safe_source_link urlsplit) (source_link_values r))

  unfoldable pub check_all : ℕ → List Value → Result GateError Bool
  check_all max_chars [] = ok false
  check_all max_chars (r ∷ rest) = do
    found ← check_evidence max_chars r
    later ← check_all max_chars rest
    ok (found || later)

  -- The limits are given as numbers; the older names of the two parameters are left out.
  unfoldable pub validate_briefing_item : ℕ → ℕ → Value → Result GateError Value
  validate_briefing_item max_quotes max_chars item = do
    raise_if (ltb max_evidence_quotes max_quotes || ltb max_quote_length max_chars) limits_too_wide
    raise_if (ltb max_quotes 1 || ltb max_chars 1) limits_not_positive
    raise_if (has_full_text item) full_text
    let evidence = records (or_null (field item (codes "evidence")))
    let claimless = is_nil evidence && asserts_nothing item
    raise_if (is_nil evidence && not claimless) missing_evidence
    raise_if (ltb max_quotes (length evidence)) too_many_quotes
    evidence_link ← check_all max_chars evidence
    raise_if (any is_unsafe_link (present item link_names)) unsafe_link
    let has_original_link =
        evidence_link || any (safe_source_link urlsplit) (present item link_names)
    raise_if (not has_original_link && not claimless) no_source_link
    raise_if (lint item) banned_phrase
    ok item

  unfoldable pub validate_items : ℕ → ℕ → List Value → Result GateError (Unit {0})
  validate_items max_quotes max_chars [] = ok tt
  validate_items max_quotes max_chars (item ∷ items) = do
    validate_briefing_item max_quotes max_chars item
    validate_items max_quotes max_chars items

  unfoldable pub validate_publication : ℕ → ℕ → Value → Result GateError Value
  validate_publication max_quotes max_chars publication = do
    raise_if (has_full_text publication) full_text
    items ← publication_items publication
    validate_items max_quotes max_chars items
    raise_if (lint publication) banned_phrase
    ok publication
