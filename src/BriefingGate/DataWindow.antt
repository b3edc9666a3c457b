-- ===== src/BriefingGate/DataWindow.antt =====
-- The data window of a briefing: `_data_window` and `_require_data_window` of briefing_gate.py.
use inno_scalping_crawling.Common.{
  ℕ, not, ◌||◌, ltb, ◌==◌, if◌then◌else◌, Option, none, some, [], ◌∷◌, Text, codes, strip, Result,
  ok, err, raise_if, ◌>>=◌, ◌>>◌,
}
use inno_scalping_crawling.Publication.{Value, date_time, date, scalar, text}
use inno_scalping_crawling.BriefingGate.{
  BriefingError, window_missing, window_not_datetime, window_reversed, first, or_else, or_empty,
  is_given,
}

-- `Z` at the end is read as an offset.
abbrev pub zulu : Text → Text
zulu [] = []
zulu (c ∷ []) = if c == b'Z' then codes "+00:00" else c ∷ []
zulu (c ∷ d ∷ s) = c ∷ zulu (d ∷ s)

-- `_as_datetime`; the parameter is `datetime.fromisoformat`, with the instant that it reads (in UTC
-- where there is no offset) and `none` where it raises `ValueError`.
unfoldable pub as_datetime : (Text → Option ℕ) → Value → Option ℕ
as_datetime fromisoformat (scalar _ _ (some (date_time i))) = some i
as_datetime fromisoformat (scalar _ _ (some (date i))) = some i
as_datetime fromisoformat (text s) = fromisoformat (zulu (strip s))
as_datetime fromisoformat _ = none

-- `_data_window`
unfoldable pub data_window : Value → Option Value × Option Value
data_window section =
    let nested =
      or_empty
        (first section (codes "window" ∷ codes "collection_window" ∷ codes "data_window" ∷ [])) in
    (
      or_else (first section (codes "window_start" ∷ codes "actual_start" ∷ [])) (
          first nested (
            codes "window_start"
            ∷ codes "actual_start"
            ∷ codes "requested_start"
            ∷ codes "start"
            ∷ [])),
      or_else (first section (codes "window_end" ∷ codes "actual_end" ∷ [])) (
          first nested
            (codes "window_end" ∷ codes "actual_end" ∷ codes "requested_end" ∷ codes "end" ∷ [])),
    )

abbrev pub instant : (Text → Option ℕ) → Option Value → Result BriefingError ℕ
instant fromisoformat none = err window_not_datetime
instant fromisoformat (some v) = parsed (as_datetime fromisoformat v)
  where
    parsed : Option ℕ → Result BriefingError ℕ
    parsed none = err window_not_datetime
    parsed (some i) = ok i

abbrev pub check_window :
    (Text → Option ℕ) → Option Value → Option Value → Result BriefingError (Unit {0})
check_window fromisoformat start stop = do
  raise_if (not (is_given start) || not (is_given stop)) window_missing
  parsed_start ← instant fromisoformat start
  parsed_end ← instant fromisoformat stop
  raise_if (ltb parsed_end parsed_start) window_reversed

-- `_require_data_window`
unfoldable pub require_data_window : (Text → Option ℕ) → Value → Result BriefingError (Unit {0})
require_data_window fromisoformat section =
    let (start, stop) = data_window section in check_window fromisoformat start stop
