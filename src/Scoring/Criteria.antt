-- ===== src/Scoring/Criteria.antt =====
-- Three of the five criteria of scoring.py: the source, the reproducibility and the relevance.
use inno_scalping_crawling.Common.{
  ℕ, ◌+◌, ◌/◌, ◌%◌, Bool, true, false, not, ◌&&◌, ◌||◌, if◌then◌else◌, leb, ltb, ◌==◌, Option, none,
  some, List, [], ◌∷◌, any, Text, codes, text_eq,
}
use inno_scalping_crawling.Common.Int.{ℤ, pos}
use inno_scalping_crawling.Publication.{Value, boolean, one_of}
use inno_scalping_crawling.Scoring.{
  Reading, Criterion, criterion, clamp_score, points, is_present, contains_any, field_text, number,
  status_quality, parse_datetime, text_of,
}
use inno_scalping_crawling.Scoring.Lookup.{lookup_value}
use inno_scalping_crawling.Scoring.Terms.{
  official_source_terms, microstructure_terms, ultra_short_terms, short_terms, fast_frequency_terms,
}

-- `round(n / 100)`: a half goes to the even neighbour.
unfoldable pub round_hundreds : ℕ → ℕ
round_hundreds n =
    let q = n / 100 in let r = n % 100 in if ltb 50 r || (r == 50 && q % 2 == 1) then q + 1 else q

abbrev is_true : Option Value → Bool
is_true (some (boolean b)) = b
is_true _ = false

abbrev shown : Option Value → Text
shown none = []
shown (some v) = text_of v

module _ (reading : Reading) (candidate document_version : Value) where
  abbrev read : List Text → Option Value
  read names = lookup_value candidate document_version names

  unfoldable pub unrated : ℕ
  unrated =
      let source_type = read (
        codes "source_type"
        ∷ codes "source_kind"
        ∷ codes "source_category"
        ∷ codes "publisher_type"
        ∷ codes "type"
        ∷ codes "name"
        ∷ []) in
      let official_flag = read (codes "official" ∷ codes "is_official" ∷ []) in
      if is_true official_flag
        || (one_of (codes "true" ∷ codes "yes" ∷ codes "1" ∷ [])
              (reading.casefold (shown official_flag))
            || contains_any reading source_type official_source_terms)
      then 10
      else if is_present source_type
      then 6
      else 0

  unfoldable pub rated : Option ℤ → ℕ
  rated (some (pos n)) = if leb n 1000 then clamp_score (round_hundreds n) 10 else unrated
  rated _ = unrated

  unfoldable pub reliability_points : ℕ
  reliability_points =
      rated (number reading (read (codes "source_confidence" ∷ codes "source_reliability" ∷ [])))
      + points 5 (
          is_present (
            read (
              codes "author_or_org"
              ∷ codes "author"
              ∷ codes "publisher"
              ∷ codes "organization"
              ∷ codes "institution"
              ∷ [])))
      + points 4 (
          is_dated (
            parse_datetime reading (
              read (
                codes "published_at"
                ∷ codes "publication_date"
                ∷ codes "issued_at"
                ∷ codes "created_at"
                ∷ []))))
      + points 3 (is_present (read (codes "license" ∷ codes "licence" ∷ [])))
      + points 8 (
          is_present (
            read (
              codes "canonical_url"
              ∷ codes "source_url"
              ∷ codes "original_url"
              ∷ codes "document_version_id"
              ∷ codes "source_version_ref"
              ∷ codes "source_id"
              ∷ [])))
    where
      is_dated : Option ℕ → Bool
      is_dated none = false
      is_dated (some _) = true

  -- `_source_reliability_score`
  unfoldable pub source_reliability_score : Criterion
  source_reliability_score = criterion 30 reliability_points

  abbrev quality : Text → ℕ
  quality name = status_quality reading candidate name

  -- `{0: 0, 1: one, 2: two}.get(quality, 0)`
  unfoldable pub by_quality : ℕ → ℕ → ℕ → ℕ
  by_quality one two q = if q == 1 then one else if q == 2 then two else 0

  unfoldable pub completeness : ℕ
  completeness =
      let core =
        (codes "core_hypothesis"
          ∷ codes "signal_inputs"
          ∷ codes "entry_logic"
          ∷ codes "exit_logic"
          ∷ codes "required_data"
          ∷ codes "risk_notes"
          ∷ []) in
      if not (any (λ name. not (quality name == 2)) core)
      then 4
      else if any (λ name. not (quality name == 0)) core
      then 2
      else 0

  unfoldable pub reproducibility_points : ℕ
  reproducibility_points =
      by_quality 1 2 (quality (codes "core_hypothesis"))
      + by_quality 1 2 (quality (codes "signal_inputs"))
      + by_quality 1 3 (quality (codes "entry_logic"))
      + by_quality 1 3 (quality (codes "exit_logic"))
      + by_quality 2 4 (quality (codes "required_data"))
      + points 2 (
          is_present (
            read (
              codes "required_frequency"
              ∷ codes "data_frequency"
              ∷ codes "sampling_frequency"
              ∷ codes "timeframe"
              ∷ [])))
      + points 2 (
          is_present (
            read (
              codes "market_types"
              ∷ codes "asset_classes"
              ∷ codes "market_scope"
              ∷ codes "venue"
              ∷ [])))
      + points 2 (
          is_present
            (read (codes "holding_horizon" ∷ codes "time_horizon" ∷ codes "holding_period" ∷ [])))
      + points 1 (
          is_present (
            read (
              codes "time_range"
              ∷ codes "data_window"
              ∷ codes "observation_window"
              ∷ codes "sample_period"
              ∷ [])))
      + completeness

  -- `_reproducibility_score`
  unfoldable pub reproducibility_score : Criterion
  reproducibility_score = criterion 25 reproducibility_points

  -- The words for a long horizon only change the reason.
  unfoldable pub horizon_points : ℕ
  horizon_points =
      let horizon =
        read (codes "holding_horizon" ∷ codes "time_horizon" ∷ codes "holding_period" ∷ []) in
      if contains_any reading horizon ultra_short_terms
      then 6
      else if contains_any reading horizon short_terms
      then 3
      else 0

  unfoldable pub relevance_status_points : Text → ℕ
  relevance_status_points status =
      if text_eq status (codes "relevant")
      then 2
      else if text_eq status (codes "background_only")
      then 1
      else 0

  unfoldable pub relevance_points : ℕ
  relevance_points =
      horizon_points
      + points 3 (is_present (read (codes "required_data" ∷ [])))
      + points 2 (
          contains_any reading
            (read (
              codes "required_frequency"
              ∷ codes "data_frequency"
              ∷ codes "sampling_frequency"
              ∷ codes "timeframe"
              ∷ []))
            fast_frequency_terms)
      + points 4 (
          contains_any reading
            (read (
              codes "microstructure_level"
              ∷ codes "market_types"
              ∷ codes "tags"
              ∷ codes "strategy_families"
              ∷ []))
            microstructure_terms)
      + by_quality 1 2 (quality (codes "entry_logic"))
      + points 1 (quality (codes "exit_logic") == 2)
      + relevance_status_points (reading.casefold (field_text candidate (codes "relevance_status")))

  -- `_relevance_score`
  unfoldable pub relevance_score : Criterion
  relevance_score = criterion 20 relevance_points
