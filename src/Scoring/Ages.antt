-- ===== src/Scoring/Ages.antt =====
-- The recency of scoring.py grows with the time of the document.
use inno_scalping_crawling.Common.{ℕ, ◌-◌, ◌≤◌, Option, none, some, arith}
use inno_scalping_crawling.Scoring.{points}
use inno_scalping_crawling.Scoring.Recency.{timing_points, change_points, recency_points}

timing_antitone : (young old : ℕ) → young ≤ old → timing_points old ≤ timing_points young
unfolding timing_points
timing_antitone young old h = ground arith

change_monotone :
    (early late : ℕ) (comparison : Option ℕ)
    → early ≤ late
    → change_points early comparison ≤ change_points late comparison
unfolding change_points points
change_monotone early late none h = omega arith
change_monotone early late (some c) h = ground arith

-- A document with a later timestamp never gets fewer points for its recency than one with an earlier
-- timestamp, at the same time and after the same briefing.
pub recency_points-monotone :
    (as_of early late : ℕ) (comparison : Option ℕ)
    → early ≤ late
    → recency_points as_of (some early) comparison ≤ recency_points as_of (some late) comparison
unfolding recency_points
recency_points-monotone as_of early late comparison h = omega (
  arith,
  timing_antitone (as_of - late) (as_of - early) (omega arith),
  change_monotone early late comparison h,
)
