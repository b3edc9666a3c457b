-- ===== src/Scoring/Call.antt =====
-- The whole of `score_candidate` of scoring.py: the two names of each argument, the scoring, and the
-- writing of the two fields of the candidate.
use inno_scalping_crawling.Common.{
  ℕ, Bool, true, false, not, ◌&&◌, if◌then◌else◌, Option, none, some, Result, ok, err, raise_if,
  ◌>>=◌, ◌>>◌,
}
use inno_scalping_crawling.Publication.{Value, null}
use inno_scalping_crawling.Scoring.{
  ScoringError, two_documents, two_times, two_related, not_writable, Reading, parse_datetime,
}
use inno_scalping_crawling.Scoring.Candidate.{Breakdown, ValueScoreResult, score_candidate}

-- The arguments beside the candidate, `null` for `None`; whether the two documents and the two lists
-- are the same object; and whether the candidate can be written to, as a whole.
pub record Arguments : Type 0 where
  pub document_version : Value
  pub document : Value
  pub same_document : Bool
  pub existing_candidates : Value
  pub related_candidates : Value
  pub same_related : Bool
  pub as_of : Value
  pub now : Value
  pub last_successful_briefing_at : Value
  pub persist : Bool
  pub writable : Bool

-- The result, and what has been written to `value_score` and `value_score_breakdown`.
pub record Scored : Type 0 where
  pub result : ValueScoreResult
  pub stored : Option (ℕ × Breakdown)

abbrev pub is_null : Value → Bool
is_null null = true
is_null _ = false

-- One value from the two names of an argument.
unfoldable pub either_name : ScoringError → Value → Value → Bool → Result ScoringError Value
either_name e first second same =
    if is_null second
    then ok first
    else if not (is_null first) && not same
    then err e
    else ok second

abbrev pub or_now : Option ℕ → ℕ → ℕ
or_now none clock = clock
or_now (some t) clock = t

-- `_store`, twice
unfoldable pub store_score :
    Bool → Bool → ValueScoreResult → Result ScoringError (Option (ℕ × Breakdown))
store_score persist writable r = do
  raise_if (persist && not writable) not_writable
  ok (if persist then some (r.value_score, r.value_score_breakdown) else none)

-- `clock` is the time of the call.
unfoldable pub score_and_store : Reading → ℕ → Value → Arguments → Result ScoringError Scored
score_and_store reading clock candidate args = do
  version ← either_name two_documents args.document_version args.document args.same_document
  time ← either_name two_times args.as_of args.now false
  existing ←
      either_name two_related args.existing_candidates args.related_candidates args.same_related
  scored ←
      score_candidate reading candidate version existing
        (or_now (parse_datetime reading (some time)) clock) args.last_successful_briefing_at
  stored ← store_score args.persist args.writable scored
  ok (record { result = scored; stored = stored })
