-- ===== src/RateLimit.antt =====
-- src/scalping_briefing/net/rate_limit.py: a token bucket for every source.
-- Times are whole microseconds and a policy allows a whole number of requests in a minute. Tokens
-- are counted in parts of 1 / 60 000 000, so that the source's divisions by the interval are exact
-- products here: in one microsecond a bucket gains as many parts as the policy allows requests in
-- a minute, and a wait of `w` parts lasts `w / requests_per_minute` microseconds.
pub mod Buckets
pub mod Sources
pub mod Grants
pub mod Waiting
mod Examples
use inno_scalping_crawling.Common.{
  ℕ, zero, suc, ◌+◌, ◌-◌, ◌*◌, Bool, true, false, not, Option, none, some, List, [], ◌∷◌, Result,
  ok, err, raise_if, lookup, insert, remove, leb, ltb, if◌then◌else◌, Text, is_filled, ◌>>=◌, ◌>>◌,
}

-- One token.
abbrev pub token : ℕ
token = 60_000_000

pub record RateLimitPolicy : Type 0 where
  pub requests_per_minute : ℕ
  pub burst : ℕ

pub data LimitError : Type 0 where
  requests_not_positive burst_below_one no_policy source_id_empty max_waits_not_positive :
      LimitError
  never_available : LimitError

-- `RateLimitPolicy.__post_init__`
unfoldable pub check_policy : RateLimitPolicy → Result LimitError RateLimitPolicy
check_policy p = do
  raise_if (leb p.requests_per_minute 0) requests_not_positive
  raise_if (ltb p.burst 1) burst_below_one
  ok p

pub record Bucket : Type 0 where
  pub tokens : ℕ
  pub last_timestamp : ℕ

pub record Decision : Type 0 where
  pub allowed : Bool
  pub wait : ℕ

abbrev pub min : ℕ → ℕ → ℕ
min a b = if leb a b then a else b

abbrev pub admit : Decision
admit = record { allowed = true; wait = 0 }

-- The tokens of a bucket at a time; a clock that has gone back adds none.
unfoldable pub refill : RateLimitPolicy → Bucket → ℕ → ℕ
refill p b now = min (p.burst * token) (b.tokens + (now - b.last_timestamp) * p.requests_per_minute)

-- The decision of `_decision`.
unfoldable pub decision : RateLimitPolicy → Option Bucket → ℕ → Decision
unfolding refill
decision p none now = admit
decision p (some b) now =
    if leb token (refill p b now)
    then admit
    else record { allowed = false; wait = token - refill p b now }

-- The bucket that `_decision` leaves behind if it consumes.
unfoldable pub consumed : RateLimitPolicy → Option Bucket → ℕ → Bucket
unfolding refill
consumed p none now = record { tokens = p.burst * token - token; last_timestamp = now }
consumed p (some b) now = record {
  tokens = if leb token (refill p b now) then refill p b now - token else refill p b now;
  last_timestamp = now;
}

pub record SourceRateLimiter : Type 0 where
  pub policies : List (Text × RateLimitPolicy)
  pub default_policy : Option RateLimitPolicy
  pub buckets : List (Text × Bucket)

abbrev pub or_default : Option RateLimitPolicy → Option RateLimitPolicy → Option RateLimitPolicy
or_default (some p) _ = some p
or_default none later = later

abbrev pub require : Option RateLimitPolicy → Result LimitError RateLimitPolicy
require none = err no_policy
require (some p) = check_policy p

-- `_policy_for`
unfoldable pub policy_for :
    SourceRateLimiter → Text → Option RateLimitPolicy → Result LimitError RateLimitPolicy
unfolding lookup check_policy
policy_for l source_id policy =
    require (or_default policy (or_default (lookup source_id l.policies) l.default_policy))

unfoldable pub acquire :
    SourceRateLimiter
    → Text
    → Option RateLimitPolicy
    → ℕ
    → Result LimitError (Decision × SourceRateLimiter)
acquire l source_id policy now = do
  raise_if (not (is_filled source_id)) source_id_empty
  p ← policy_for l source_id policy
  let bucket = lookup source_id l.buckets
  ok (
    decision p bucket now,
    record l { buckets = insert source_id (consumed p bucket now) l.buckets },
  )

unfoldable pub check :
    SourceRateLimiter → Text → Option RateLimitPolicy → ℕ → Result LimitError Decision
check l source_id policy now = do
  raise_if (not (is_filled source_id)) source_id_empty
  p ← policy_for l source_id policy
  ok (decision p (lookup source_id l.buckets) now)

-- `reset`
unfoldable pub reset : SourceRateLimiter → Option Text → SourceRateLimiter
unfolding remove
reset l none = record l { buckets = [] }
reset l (some source_id) = record l { buckets = remove source_id l.buckets }

-- The loop of `acquire_or_wait`, with the time of each of its calls of `acquire`. What it slept
-- comes back beside the decision.
unfoldable pub wait_from :
    SourceRateLimiter
    → Text
    → Option RateLimitPolicy
    → (ℕ → ℕ)
    → ℕ
    → ℕ
    → Result LimitError (Decision × SourceRateLimiter × List ℕ)
wait_from l source_id policy clock round zero = err never_available
wait_from l source_id policy clock round (suc waits) = do
  (d, l') ← acquire l source_id policy (clock round)
  elim d.allowed [
    | true ↦ ok (d, l', [])
    | false ↦ do
      (d', l'', slept) ← wait_from l' source_id policy clock (round + 1) waits
      ok (d', l'', d.wait ∷ slept)
  ]

unfoldable pub acquire_or_wait :
    SourceRateLimiter
    → Text
    → Option RateLimitPolicy
    → (ℕ → ℕ)
    → ℕ
    → Result LimitError (Decision × SourceRateLimiter × List ℕ)
unfolding wait_from
acquire_or_wait l source_id policy clock max_waits = do
  raise_if (ltb max_waits 1) max_waits_not_positive
  wait_from l source_id policy clock 0 max_waits
