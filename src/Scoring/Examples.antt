-- ===== src/Scoring/Examples.antt =====
-- Candidates through scoring.py.
use inno_scalping_crawling.Common.{
  ◌≡◌, refl, inl, true, false, none, some, [], In, codes, ok, lower, strip, drop_spaces, is_space,
  is_filled, text_eq, words, join_spaces, contains,
}
use inno_scalping_crawling.Publication.{
  Value, null, scalar, date_time, text, mapping, sequence, end, entry, get, field, values,
}
use inno_scalping_crawling.Scoring.{
  Reading, criterion, clamp_score, is_present, text_of, number, contains_any, status_text,
  status_quality, parse_datetime, points, field_text,
}
use inno_scalping_crawling.Scoring.Lookup.{
  lookup_value, collect, queue_weight, weight, nested_records, nested_names, mapping_values,
  mappings_at, find_name, find_names,
}
use inno_scalping_crawling.Scoring.Terms.{
  official_source_terms, microstructure_terms, ultra_short_terms, short_terms, fast_frequency_terms,
}
use inno_scalping_crawling.Scoring.Criteria.{
  source_reliability_score, reliability_points, rated, unrated, reproducibility_score,
  reproducibility_points, by_quality, completeness, relevance_score, relevance_points,
  horizon_points, relevance_status_points,
}
use inno_scalping_crawling.Scoring.Recency.{
  recency_score, recency_points, timing_points, change_points, latest_of, timestamp_names,
}
use inno_scalping_crawling.Scoring.Novelty.{
  unknown, new, scored, novelty_score, raw_related_ids, present_texts, sorted_set, novelty_named,
  given_or, compare_with, comparisons, candidate_list, candidate_similarity, fraction, token_set,
  tokens, distinct, comparison_fields, is_exact, normalise_name, compare_exact, by_similarity,
  best_of, before, strategy_id, at_least,
}
use inno_scalping_crawling.Scoring.Candidate.{
  score_candidate, unwrap_candidate, result, ValueScoreResult,
}
use inno_scalping_crawling.Scoring.Totals.{IsTotal, score_candidate-IsTotal}
use inno_scalping_crawling.Scoring.Call.{Arguments}
use inno_scalping_crawling.Scoring.Newness.{novelty_score-new}

abbrev reading : Reading
reading = record { casefold = lower; float = λ v. none; fromisoformat = λ s. none }

-- The license stands in the metadata.
abbrev metadata : Value
metadata = mapping (entry (codes "license") (text (codes "MIT")) end)

abbrev candidate : Value
candidate = mapping (
    entry (codes "canonical_name") (text (codes "alpha beta")) (
      entry (codes "entry_logic") (text (codes "buy")) (
        entry (codes "entry_logic_status") (text (codes "Explicit")) (
          entry (codes "updated_at") (scalar (codes "t5") true (some (date_time 5)))
            (entry (codes "metadata") metadata end)))))

abbrev scored_result : ValueScoreResult
scored_result = record {
  candidate = candidate;
  value_score = 25;
  value_score_breakdown = record {
    source_reliability = record { score = 3; max_score = 30 };
    reproducibility = record { score = 5; max_score = 25 };
    ultra_short_term_relevance = record { score = 2; max_score = 20 };
    recency = record { score = 10; max_score = 15 };
    novelty = record { score = 5; max_score = 10 };
  };
  novelty_status = unknown;
  related_strategy_ids = [];
}

scores : score_candidate reading candidate null null 6 null ≡ ok scored_result
unfolding score_candidate unwrap_candidate result criterion clamp_score is_present text_of number
    contains_any status_text status_quality parse_datetime points lookup_value collect queue_weight
    weight nested_records nested_names mapping_values mappings_at find_name find_names
    source_reliability_score reliability_points rated unrated reproducibility_score
    reproducibility_points by_quality completeness relevance_score relevance_points horizon_points
    relevance_status_points official_source_terms microstructure_terms ultra_short_terms short_terms
    fast_frequency_terms recency_score recency_points timing_points change_points latest_of
    timestamp_names novelty_score raw_related_ids present_texts sorted_set novelty_named given_or
    compare_with comparisons candidate_list get field values lower strip drop_spaces is_space
    is_filled text_eq words join_spaces contains
scores = refl

score_candidate-IsTotal_example : IsTotal reading candidate null 6 null scored_result
score_candidate-IsTotal_example =
    score_candidate-IsTotal reading candidate null null 6 null scored_result scores

abbrev arguments : Arguments
arguments = record {
  document_version = null;
  document = null;
  same_document = false;
  existing_candidates = null;
  related_candidates = null;
  same_related = false;
  as_of = null;
  now = scalar (codes "t6") true (some (date_time 6));
  last_successful_briefing_at = null;
  persist = true;
  writable = true;
}

abbrev other : Value
other = mapping (entry (codes "canonical_name") (text (codes "gamma")) end)

abbrev existing : Value
existing = sequence (entry [] other end)

judged : novelty_score reading candidate existing ≡ ok (scored 10 new [])
unfolding novelty_score raw_related_ids present_texts sorted_set novelty_named given_or compare_with
    comparisons candidate_list candidate_similarity fraction token_set tokens distinct
    comparison_fields is_exact normalise_name compare_exact by_similarity best_of before strategy_id
    criterion clamp_score is_present text_of get field values lower text_eq words join_spaces
    is_space
judged = refl

without_status :
    novelty_named (reading.casefold (field_text candidate (codes "novelty_status"))) ≡ none
unfolding novelty_named lower text_eq field get
without_status = refl

compared : In other (comparisons reading candidate existing)
unfolding comparisons candidate_list field get values text_eq text_of
compared = inl refl

novelty_score-new_example :
    (is_exact reading candidate other ≡ false)
    × (at_least 35 (candidate_similarity reading candidate other) ≡ false)
novelty_score-new_example =
    novelty_score-new reading candidate existing other (scored 10 new []) without_status judged refl
      compared
