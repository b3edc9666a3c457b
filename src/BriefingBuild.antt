-- ===== src/BriefingBuild.antt =====
-- src/scalping_briefing/publishing/briefing_build.py: which candidates a briefing is made of, and in
-- which order. Candidates and earlier briefings are values as in publishing/gate.py.
pub mod Order
pub mod Carried
pub mod Sound
mod Examples
use inno_scalping_crawling.Common.{
  ℕ, Bool, true, false, ◌&&◌, leb, Option, none, some, List, [], ◌∷◌, Text, codes,
}
use inno_scalping_crawling.Common.Int.{ℤ}
use inno_scalping_crawling.Publication.{Value, null, text, field, one_of, or_null}
use inno_scalping_crawling.BriefingGate.{own_records, str}
use inno_scalping_crawling.BriefingGate.DataWindow.{as_datetime}

-- `datetime.fromisoformat`, the `str` of a mapping or a sequence, and `float` in whole thousandths,
-- `none` where it raises.
pub record Readers : Type 0 where
  pub fromisoformat : Text → Option ℕ
  pub repr : Value → Text
  pub float : Value → Option ℤ

abbrev pub final_review_states : List Text
final_review_states = codes "approved" ∷ codes "rejected" ∷ codes "archived" ∷ []

abbrev pub excluded_queue_states : List Text
excluded_queue_states = codes "rejected" ∷ codes "archived" ∷ []

abbrev pub queue_review_states : List Text
queue_review_states = codes "pending" ∷ codes "needs_review" ∷ []

abbrev pub status_in : List Text → Option Value → Bool
status_in states (some (text s)) = one_of states s
status_in states _ = false

-- Whether the review status is one of these; one that is missing is read as `pending` or as `None`,
-- and neither is among the states that the code asks for then.
unfoldable pub has_status : List Text → Value → Bool
has_status states candidate = status_in states (field candidate (codes "review_status"))

abbrev time_or : Option ℕ → Option ℕ → Option ℕ
time_or (some i) later = some i
time_or none later = later

module _ (readers : Readers) where
  unfoldable pub time_of : Option Value → Option ℕ
  time_of none = none
  time_of (some v) = as_datetime readers.fromisoformat v

  unfoldable pub first_time : List Text → Value → Option ℕ
  first_time [] v = none
  first_time (name ∷ names) v = time_or (time_of (field v name)) (first_time names v)

  unfoldable pub evidence_time : List Value → Option ℕ
  evidence_time [] = none
  evidence_time (e ∷ rest) = time_or (time_of (field e (codes "captured_at"))) (
      time_or
        (time_of (field (or_null (field e (codes "document_version"))) (codes "retrieved_at")))
        (evidence_time rest))

  abbrev metadata : Option Value → Option Value → Value
  metadata (some v) other = v
  metadata none other = or_null other

  -- `_candidate_timestamp`
  unfoldable pub candidate_timestamp : Value → Option ℕ
  candidate_timestamp candidate = time_or (time_of (field candidate (codes "created_at"))) (
      time_or
        (first_time
          (codes "created_at"
            ∷ codes "collected_at"
            ∷ codes "published_at"
            ∷ codes "retrieved_at"
            ∷ [])
          (metadata (field candidate (codes "metadata_json")) (field candidate (codes "metadata"))))
        (evidence_time (own_records (or_null (field candidate (codes "evidence"))))))

  -- `_in_window`
  unfoldable pub in_window : ℕ → ℕ → Value → Bool
  in_window start stop candidate = within (candidate_timestamp candidate)
    where
      within : Option ℕ → Bool
      within none = true
      within (some i) = leb start i && leb i stop

  -- `str(_field(candidate, "candidate_id", ""))`
  unfoldable pub identifier : Value → Text
  identifier candidate = shown (field candidate (codes "candidate_id"))
    where
      shown : Option Value → Text
      shown none = []
      shown (some v) = str readers.repr v

  unfoldable pub score_of : Value → Option ℤ
  score_of candidate = read (field candidate (codes "value_score"))
    where
      read : Option Value → Option ℤ
      read none = none
      read (some null) = none
      read (some v) = readers.float v
