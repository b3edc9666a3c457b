-- ===== src/Scoring.antt =====
-- src/scalping_briefing/pipeline/scoring.py: the value score of a candidate. The values are those
-- of publishing/gate.py. The reasons, which only put the points into words, are left out.
pub mod Lookup
pub mod Terms
pub mod Criteria
pub mod Recency
pub mod Novelty
pub mod Candidate
pub mod Call
pub mod Bounds
pub mod Totals
pub mod Causes
pub mod Ends
pub mod Ages
pub mod Newness
pub mod Weight
mod Examples
use inno_scalping_crawling.Common.{
  ℕ, Bool, true, false, not, if◌then◌else◌, leb, Option, none, some, List, [], ◌∷◌, ◌++◌, any, Text,
  codes, is_filled, strip, words, join_spaces, contains, text_eq,
}
use inno_scalping_crawling.Common.Int.{ℤ}
use inno_scalping_crawling.Publication.{
  Value, Entries, null, boolean, scalar, date_time, text, mapping, sequence, end, entry, field,
  one_of,
}
use inno_scalping_crawling.BriefingGate.DataWindow.{zulu}

pub data ScoringError : Type 0 where
  candidate_required not_iterable exceeds_breakdown : ScoringError
  two_documents two_times two_related not_writable : ScoringError

-- `_present`; `none` is `_MISSING`, which no caller of `_present` passes on.
unfoldable pub is_present : Option Value → Bool
is_present none = false
is_present (some null) = false
is_present (some (text s)) = is_filled s
is_present (some (mapping end)) = false
is_present (some (sequence end)) = false
is_present (some v) = true

abbrev joined : Text → Text → Text
joined [] rest = rest
joined (c ∷ s) [] = c ∷ s
joined (c ∷ s) (d ∷ t) = (c ∷ s) ++ (b' ' ∷ (d ∷ t))

-- `_text`
unfoldable mutual
  pub text_of : Value → Text
  text_of null = []
  text_of (boolean true) = codes "True"
  text_of (boolean false) = codes "False"
  text_of (scalar s _ _) = strip s
  text_of (text s) = join_spaces (words s)
  text_of (mapping entries) = entries_text entries
  text_of (sequence entries) = entries_text entries

  pub entries_text : Entries → Text
  entries_text end = []
  entries_text (entry _ v rest) = joined (text_of v) (entries_text rest)

abbrev pub field_text : Value → Text → Text
field_text v name = shown (field v name)
  where
    shown : Option Value → Text
    shown none = []
    shown (some w) = text_of w

-- `str.casefold`, `float` in whole thousandths (`none` where it raises or is not finite), and
-- `datetime.fromisoformat` (as for the data window of a briefing).
pub record Reading : Type 0 where
  pub casefold : Text → Text
  pub float : Value → Option ℤ
  pub fromisoformat : Text → Option ℕ

pub record Criterion : Type 0 where
  pub score : ℕ
  pub max_score : ℕ

-- `_clamp_score` of a whole number that is not negative.
unfoldable pub clamp_score : ℕ → ℕ → ℕ
clamp_score n maximum = if leb n maximum then n else maximum

-- `_criterion`
unfoldable pub criterion : ℕ → ℕ → Criterion
criterion maximum n = record { score = clamp_score n maximum; max_score = maximum }

-- `_number`
unfoldable pub number : Reading → Option Value → Option ℤ
number reading none = none
number reading (some (boolean _)) = none
number reading (some v) = reading.float v

-- `_contains_any`
unfoldable pub contains_any : Reading → Option Value → List Text → Bool
contains_any reading none terms =
    any (λ term. contains (reading.casefold term) (reading.casefold [])) terms
contains_any reading (some v) terms =
    any (λ term. contains (reading.casefold term) (reading.casefold (text_of v))) terms

-- `_status`
unfoldable pub status_text : Reading → Value → Text → Text
status_text reading candidate name =
    reading.casefold (field_text candidate (name ++ codes "_status"))

abbrev quality : Text → ℕ
quality status =
    if text_eq status (codes "conflicting")
    then 0
    else if one_of
        ([]
          ∷ codes "unknown"
          ∷ codes "not_applicable"
          ∷ codes "none"
          ∷ codes "null"
          ∷ codes "inferred"
          ∷ [])
        status
    then 1
    else 2

-- `_status_quality`
unfoldable pub status_quality : Reading → Value → Text → ℕ
status_quality reading candidate name =
    if not (is_present (field candidate name))
    then 0
    else quality (status_text reading candidate name)

-- `_parse_datetime`
unfoldable pub parse_datetime : Reading → Option Value → Option ℕ
parse_datetime reading (some (scalar _ _ (some (date_time i)))) = some i
parse_datetime reading (some (text s)) =
    if is_filled s then reading.fromisoformat (zulu (strip s)) else none
parse_datetime reading _ = none

-- `n` points if the test holds.
unfoldable pub points : ℕ → Bool → ℕ
points n test = if test then n else 0
