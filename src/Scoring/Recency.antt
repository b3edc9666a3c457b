-- ===== src/Scoring/Recency.antt =====
-- The recency criterion of scoring.py. Times are whole microseconds.
use inno_scalping_crawling.Common.{
  ℕ, ◌+◌, ◌-◌, ◌*◌, if◌then◌else◌, leb, ltb, Option, none, some, List, [], ◌∷◌, Text, codes,
}
use inno_scalping_crawling.Publication.{Value, null}
use inno_scalping_crawling.Scoring.{Reading, Criterion, criterion, points, parse_datetime}
use inno_scalping_crawling.Scoring.Lookup.{lookup_value}

abbrev pub day : ℕ
day = 86400 * 1000000

-- The chain of tests on `age_days`.
unfoldable pub timing_points : ℕ → ℕ
timing_points age =
    if leb age day
    then 10
    else if leb age (7 * day)
    then 8
    else if leb age (14 * day)
    then 6
    else if leb age (30 * day)
    then 4
    else if leb age (90 * day)
    then 2
    else 0

abbrev later_of : Option ℕ → Option ℕ → Option ℕ
later_of none latest = latest
later_of (some i) none = some i
later_of (some i) (some j) = some (if ltb j i then i else j)

unfoldable pub change_points : ℕ → Option ℕ → ℕ
change_points latest none = 0
change_points latest (some comparison) = points 5 (ltb comparison latest)

-- The points for the latest timestamp, if there is one, and the time that it is compared with.
unfoldable pub recency_points : ℕ → Option ℕ → Option ℕ → ℕ
recency_points as_of none comparison = 0
recency_points as_of (some latest) comparison =
    timing_points (as_of - latest) + change_points latest comparison

module _ (reading : Reading) (candidate document_version : Value) where
  -- `max(timestamps)`, or `none` if none of these names has one.
  unfoldable pub latest_of : List Text → Option ℕ
  latest_of [] = none
  latest_of (name ∷ names) =
      later_of (parse_datetime reading (lookup_value candidate document_version (name ∷ [])))
        (latest_of names)

  unfoldable pub timestamp_names : List Text
  timestamp_names =
      codes "updated_at"
      ∷ codes "last_updated_at"
      ∷ codes "modified_at"
      ∷ codes "published_at"
      ∷ codes "publication_date"
      ∷ codes "issued_at"
      ∷ codes "retrieved_at"
      ∷ []

  abbrev pub compared_with : Value → Option Value
  compared_with null = lookup_value candidate document_version (
      codes "last_successful_briefing_at"
      ∷ codes "last_successful_briefing"
      ∷ codes "last_briefing_at"
      ∷ [])
  compared_with v = some v

  -- `_recency_score`
  unfoldable pub recency_score : ℕ → Value → Criterion
  recency_score as_of last_successful_briefing_at = criterion 15 (
      recency_points as_of (latest_of timestamp_names)
        (parse_datetime reading (compared_with last_successful_briefing_at)))
