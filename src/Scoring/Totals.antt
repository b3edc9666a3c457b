-- ===== src/Scoring/Totals.antt =====
-- The value score of scoring.py and its breakdown.
use mathlib.Core.Path.{subst}
use inno_scalping_crawling.Common.{
  ℕ, ◌≤◌, ◌≡◌, ◌⊎◌, inl, inr, refl, true, ◌==◌, arith, ok, err, Result-cases, ok_inj,
}
use inno_scalping_crawling.Publication.{Value}
use inno_scalping_crawling.Scoring.{ScoringError, Reading, criterion, parse_datetime}
use inno_scalping_crawling.Scoring.Criteria.{
  reliability_points, reproducibility_points, relevance_points, source_reliability_score,
  reproducibility_score, relevance_score,
}
use inno_scalping_crawling.Scoring.Novelty.{NoveltyScore, scored, novelty_score}
use inno_scalping_crawling.Scoring.Candidate.{
  unwrap_candidate, result, ValueScoreResult, Breakdown, total, score_candidate,
}
use inno_scalping_crawling.Scoring.Bounds.{
  clamp_at_most, clamp_small, reliability_at_most, reproducibility_at_most, relevance_at_most,
  recency_at_most, novelty_at_most,
}
use inno_scalping_crawling.Scoring.Recency.{
  recency_score, latest_of, timestamp_names, compared_with, recency_points,
}

-- The scores of a breakdown are within the weights of their criteria.
abbrev pub WithinWeights : Breakdown → Type 0
WithinWeights b =
    (b.source_reliability.score ≤ 30)
    × (b.reproducibility.score ≤ 25)
    × (b.ultra_short_term_relevance.score ≤ 20)
    × (b.recency.score ≤ 15)
    × (b.novelty.score ≤ 10)

abbrev pub valued : Value → Breakdown → NoveltyScore → ValueScoreResult
valued candidate b n = record {
  candidate = candidate;
  value_score = total b;
  value_score_breakdown = b;
  novelty_status = n.status;
  related_strategy_ids = n.related_ids;
}

result_lem :
    (candidate : Value) (b : Breakdown) (n : NoveltyScore)
    → WithinWeights b
    → result candidate b n ≡ ok (valued candidate b n)
unfolding result
result_lem candidate b n (h1, h2, h3, h4, h5) =
    rw (clamp_small (total b) 100 (omega arith), same) refl
  where
    same : (total b == total b) ≡ true
    same = ground arith

abbrev pub breakdown_of : Reading → Value → Value → ℕ → Value → NoveltyScore → Breakdown
breakdown_of reading candidate version as_of last n = record {
  source_reliability = source_reliability_score reading candidate version;
  reproducibility = reproducibility_score reading candidate version;
  ultra_short_term_relevance = relevance_score reading candidate version;
  recency = recency_score reading candidate version as_of last;
  novelty = n.criterion;
}

breakdown_lem :
    (reading : Reading) (candidate version : Value) (as_of : ℕ) (last : Value) (n : NoveltyScore)
    → n.criterion.score ≤ 10
    → WithinWeights (breakdown_of reading candidate version as_of last n)
unfolding source_reliability_score reproducibility_score relevance_score recency_score criterion
breakdown_lem reading candidate version as_of last n h = (
  clamp_at_most (reliability_points reading candidate version) 30,
  clamp_at_most (reproducibility_points reading candidate version) 25,
  clamp_at_most (relevance_points reading candidate version) 20,
  clamp_at_most
      (recency_points as_of
        (latest_of reading candidate version (timestamp_names reading candidate version))
        (parse_datetime reading (compared_with reading candidate version last)))
      15,
  h,
)

-- The ends of a scoring: it fails before anything is scored, or it gives a result.
pub scored_ends :
    (reading : Reading) (given version existing : Value) (as_of : ℕ) (last : Value)
    → ((e : ScoringError) × (score_candidate reading given version existing as_of last ≡ err e)
        × ((unwrap_candidate given version ≡ err e)
            ⊎ ((candidate document_version : Value) × (unwrap_candidate given version
                  ≡ ok (candidate, document_version))
                × (novelty_score reading candidate existing ≡ err e))))
      ⊎ ((candidate document_version : Value) × (n : NoveltyScore) × (unwrap_candidate given version
            ≡ ok (candidate, document_version))
          × (novelty_score reading candidate existing ≡ ok n)
          × (score_candidate reading given version existing as_of last
              ≡ ok (
                  valued candidate
                    (breakdown_of reading candidate document_version as_of last n)
                    n)))
unfolding score_candidate
scored_ends reading given version existing as_of last =
    elim (Result-cases (unwrap_candidate given version)) [
      | inr (e, bad) ↦ inl (e, rw bad refl, inl bad)
      | inl ((candidate, document_version), good) ↦
          elim (Result-cases (novelty_score reading candidate existing)) [
            | inr (e, bad) ↦
                inl (e, rw (good, bad) refl, inr (candidate, document_version, good, bad))
            | inl (n, fine) ↦ inr (
              candidate,
              document_version,
              n,
              good,
              fine,
              rw (good, fine)
                  (result_lem candidate
                    (breakdown_of reading candidate document_version as_of last n) n
                    (breakdown_lem reading candidate document_version as_of last n
                      (novelty_at_most reading candidate existing n fine))),
            )
          ]
    ]

-- What the scores of a result are.
abbrev pub IsTotal : Reading → Value → Value → ℕ → Value → ValueScoreResult → Type 0
IsTotal reading given version as_of last r =
    let b = r.value_score_breakdown in
    (r.value_score ≡ total b)
    × (r.value_score ≤ 100)
    × WithinWeights b
    × ((candidate document_version : Value) × (unwrap_candidate given version
          ≡ ok (candidate, document_version))
        × (b.source_reliability.score ≡ reliability_points reading candidate document_version)
        × (b.reproducibility.score ≡ reproducibility_points reading candidate document_version)
        × (b.ultra_short_term_relevance.score ≡ relevance_points reading candidate document_version)
        × (b.recency.score
            ≡ recency_points as_of
                (latest_of reading candidate document_version
                  (timestamp_names reading candidate document_version))
                (parse_datetime reading (compared_with reading candidate document_version last))))

valued_lem :
    (reading : Reading) (given version : Value) (as_of : ℕ)
    (last candidate document_version : Value) (n : NoveltyScore)
    → unwrap_candidate given version ≡ ok (candidate, document_version)
    → n.criterion.score ≤ 10
    → IsTotal reading given version as_of last
        (valued candidate (breakdown_of reading candidate document_version as_of last n) n)
unfolding source_reliability_score reproducibility_score relevance_score recency_score criterion
valued_lem reading given version as_of last candidate document_version n unwrapped novel =
    let latest =
      latest_of reading candidate document_version
        (timestamp_names reading candidate document_version) in
    let comparison =
      parse_datetime reading (compared_with reading candidate document_version last) in
    let within = breakdown_lem reading candidate document_version as_of last n novel in
    let (h1, h2, h3, h4, h5) = within in
    (
      refl,
      omega arith,
      within,
      (
        candidate,
        document_version,
        unwrapped,
        clamp_small (reliability_points reading candidate document_version) 30
            (reliability_at_most reading candidate document_version),
        clamp_small (reproducibility_points reading candidate document_version) 25
            (reproducibility_at_most reading candidate document_version),
        clamp_small (relevance_points reading candidate document_version) 20
            (relevance_at_most reading candidate document_version),
        clamp_small (recency_points as_of latest comparison) 15
            (recency_at_most as_of latest comparison),
      ),
    )

-- A value score is the sum of the scores of its five criteria and at most 100. Each score is within
-- the weight of its criterion, and none of the limits takes points away: the score of the source,
-- of the reproducibility, of the relevance and of the recency is the sum of the points given.
pub score_candidate-IsTotal :
    (reading : Reading) (given version existing : Value) (as_of : ℕ) (last : Value)
    (r : ValueScoreResult)
    → score_candidate reading given version existing as_of last ≡ ok r
    → IsTotal reading given version as_of last r
score_candidate-IsTotal reading given version existing as_of last r h =
    elim (scored_ends reading given version existing as_of last) [
      | inl (e, bad, _) ↦ absurd (ground arith)
      | inr (candidate, document_version, n, unwrapped, scored, good) ↦
          let b = breakdown_of reading candidate document_version as_of last n in
          subst (λ (r : ValueScoreResult). IsTotal reading given version as_of last r)
            (ok_inj (valued candidate b n) r
              (score_candidate reading given version existing as_of last) good h)
            (valued_lem reading given version as_of last candidate document_version n unwrapped
              (novelty_at_most reading candidate existing n scored))
    ]
