-- ===== src/Scoring/Candidate.antt =====
-- `score_candidate` of scoring.py from `_unwrap_candidate` to the result; `as_of` is the time as it
-- has been read.
use inno_scalping_crawling.Common.{
  ℕ, ◌+◌, not, ◌==◌, Option, none, some, List, Text, codes, Result, ok, err, raise_if, ◌>>=◌, ◌>>◌,
}
use inno_scalping_crawling.Publication.{Value, null, field, or_null}
use inno_scalping_crawling.Scoring.{
  ScoringError, candidate_required, exceeds_breakdown, Reading, Criterion, clamp_score,
}
use inno_scalping_crawling.Scoring.Criteria.{
  source_reliability_score, reproducibility_score, relevance_score,
}
use inno_scalping_crawling.Scoring.Recency.{recency_score}
use inno_scalping_crawling.Scoring.Novelty.{Novelty, NoveltyScore, novelty_score}

-- `VALUE_SCORE_WEIGHTS` has the criteria in this order.
pub record Breakdown : Type 0 where
  pub source_reliability : Criterion
  pub reproducibility : Criterion
  pub ultra_short_term_relevance : Criterion
  pub recency : Criterion
  pub novelty : Criterion

abbrev pub total : Breakdown → ℕ
total b =
    b.source_reliability.score + b.reproducibility.score + b.ultra_short_term_relevance.score
    + b.recency.score + b.novelty.score

pub record ValueScoreResult : Type 0 where
  pub candidate : Value
  pub value_score : ℕ
  pub value_score_breakdown : Breakdown
  pub novelty_status : Novelty
  pub related_strategy_ids : List Text

abbrev version_or : Value → Option Value → Value
version_or null inner = or_null inner
version_or v inner = v

abbrev pub unwrapped : Option Value → Value → Value → Value × Value
unwrapped none candidate version = (candidate, version)
unwrapped (some null) candidate version = (candidate, version)
unwrapped (some inner) candidate version =
    (inner, version_or version (field candidate (codes "document_version")))

abbrev pub required : Value × Value → Result ScoringError (Value × Value)
required (null, _) = err candidate_required
required pair = ok pair

-- `_unwrap_candidate`
unfoldable pub unwrap_candidate : Value → Value → Result ScoringError (Value × Value)
unwrap_candidate candidate version =
    required (unwrapped (field candidate (codes "candidate")) candidate version)

unfoldable pub result : Value → Breakdown → NoveltyScore → Result ScoringError ValueScoreResult
result candidate breakdown n = do
  raise_if (not (clamp_score (total breakdown) 100 == total breakdown)) exceeds_breakdown
  ok (record {
    candidate = candidate;
    value_score = clamp_score (total breakdown) 100;
    value_score_breakdown = breakdown;
    novelty_status = n.status;
    related_strategy_ids = n.related_ids;
  })

unfoldable pub score_candidate :
    Reading → Value → Value → Value → ℕ → Value → Result ScoringError ValueScoreResult
score_candidate reading given version existing as_of last_successful_briefing_at =
    unwrap_candidate given version >>= λ pair.
    let (candidate, document_version) = pair in
    novelty_score reading candidate existing >>= λ n.
    result candidate
      (record {
        source_reliability = source_reliability_score reading candidate document_version;
        reproducibility = reproducibility_score reading candidate document_version;
        ultra_short_term_relevance = relevance_score reading candidate document_version;
        recency =
            recency_score reading candidate document_version as_of last_successful_briefing_at;
        novelty = n.criterion;
      })
      n
