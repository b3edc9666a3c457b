-- ===== src/BriefingGate/Whole.antt =====
-- `gate_briefing` of briefing_gate.py, and `_validate_publication_contract`, which it calls first.
use inno_scalping_crawling.Common.{
  ℕ, zero, suc, leb, if◌then◌else◌, Bool, Option, List, [], ◌∷◌, Text, Result, ok, err, ◌>>=◌, ◌>>◌,
}
use inno_scalping_crawling.Common.Int.{pos, negsuc}
use inno_scalping_crawling.Publication.{Value, SplitResult}
use inno_scalping_crawling.Publication.Item.{
  GateError, max_evidence_quotes, max_quote_length, validate_briefing_item, validate_publication,
}
use inno_scalping_crawling.BriefingGate.{
  BriefingError, publication, no_quote_limit, quote_limit_not_positive, section_of, items_of,
}
use inno_scalping_crawling.BriefingGate.Sources.{assert_sources_allowed}
use inno_scalping_crawling.BriefingGate.Sensitive.{assert_no_sensitive_information}
use inno_scalping_crawling.BriefingGate.DataWindow.{require_data_window}
use inno_scalping_crawling.BriefingGate.Related.{assert_deduplicated_or_related}
use inno_scalping_crawling.BriefingGate.Approval.{assert_approval_or_internal_draft}
use inno_scalping_crawling.BriefingGate.History.{
  QuoteSetting, missing, no_integer, integer, Settings, Past, assert_delivery_history,
}

-- `quote_limit`
unfoldable pub quote_limit : QuoteSetting → Result BriefingError ℕ
quote_limit missing = ok max_quote_length
quote_limit no_integer = err no_quote_limit
quote_limit (integer (negsuc _)) = err quote_limit_not_positive
quote_limit (integer (pos zero)) = err quote_limit_not_positive
quote_limit (integer (pos (suc n))) =
    ok (if leb (suc n) max_quote_length then suc n else max_quote_length)

abbrev pub raise_gate : {A : Type 0} → Result GateError A → Result BriefingError A
raise_gate (ok a) = ok a
raise_gate (err e) = err (publication e)

-- What the gate takes from elsewhere: `urlsplit`, the phrase lint, `datetime.fromisoformat`, the
-- `str` of a mapping or a sequence, and `str.lower` with the whole table of letters.
pub record Imports : Type 0 where
  pub urlsplit : Text → Option SplitResult
  pub lint : Value → Bool
  pub fromisoformat : Text → Option ℕ
  pub repr : Value → Text
  pub lower_all : Text → Text

module _ (imports : Imports) where
  unfoldable pub validate_each : ℕ → List Value → Result BriefingError (Unit {0})
  validate_each limit [] = ok tt
  validate_each limit (item ∷ items) = do
    raise_gate (validate_briefing_item imports.urlsplit imports.lint max_evidence_quotes limit item)
    validate_each limit items

  -- `_validate_publication_contract`; `PublicationGate.validate` is `validate_publication` again.
  unfoldable pub validate_publication_contract :
      Value → List Value → ℕ → Result BriefingError (Unit {0})
  validate_publication_contract payload items limit =
      let validated =
        raise_gate
          (validate_publication imports.urlsplit imports.lint max_evidence_quotes limit payload) in
      do validated; validate_each limit items; validated; ok tt

  unfoldable pub gate_briefing : Value → Settings → List Past → Result BriefingError Value
  gate_briefing payload settings history =
      let section = section_of payload in
      let items = items_of payload in
      do
        limit ← quote_limit settings.quote_max_chars
        validate_publication_contract payload items limit
        assert_sources_allowed payload items
        require_data_window imports.fromisoformat section
        assert_deduplicated_or_related imports.repr imports.lower_all section items
        assert_approval_or_internal_draft section items
        assert_no_sensitive_information payload
        assert_delivery_history imports.repr section settings history
        ok payload
