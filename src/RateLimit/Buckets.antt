-- ===== src/RateLimit/Buckets.antt =====
-- One bucket of rate_limit.py.
use inno_scalping_crawling.Common.{
  ℕ, ◌+◌, ◌-◌, ◌*◌, ◌≤◌, ◌≡◌, ◌↔◌, refl, true, false, Option, none, some, arith, if◌then◌else◌,
}
use inno_scalping_crawling.RateLimit.{token, RateLimitPolicy, Bucket, Decision, decision, consumed}

-- The parts that a source may still spend up to a time, if it spends none before.
unfoldable pub credit : RateLimitPolicy → Option Bucket → ℕ → ℕ
credit p none now = p.burst * token
credit p (some b) now = b.tokens + (now - b.last_timestamp) * p.requests_per_minute

-- The bucket was last used at the time or before.
abbrev pub IsPast : Option Bucket → ℕ → Type 0
IsPast none now = Unit
IsPast (some b) now = b.last_timestamp ≤ now

-- What an allowed request costs.
abbrev pub cost : Decision → ℕ
cost d = if d.allowed then token else 0

pub credit-consumed :
    (p : RateLimitPolicy) (b : Option Bucket) (now : ℕ)
    → 1 ≤ p.burst
    → credit p (some (consumed p b now)) now + cost (decision p b now) ≤ credit p b now
unfolding credit consumed decision
credit-consumed p none now h = grind arith
credit-consumed p (some b) now h = ground arith

pub last_timestamp-consumed :
    (p : RateLimitPolicy) (b : Option Bucket) (now : ℕ) → (consumed p b now).last_timestamp ≡ now
unfolding consumed
last_timestamp-consumed p none now = refl
last_timestamp-consumed p (some b) now = refl

pub credit-later :
    (p : RateLimitPolicy) (b : Option Bucket) (now later : ℕ)
    → IsPast b now
    → now ≤ later
    → credit p b later ≤ credit p b now + (later - now) * p.requests_per_minute
unfolding credit
credit-later p none now later h k = omega arith
credit-later p (some b) now later h k =
    let split : later - b.last_timestamp ≡ (now - b.last_timestamp) + (later - now) = omega arith in
    rw split (omega arith)

-- A bucket never holds more than the burst of its policy.
pub tokens-consumed :
    (p : RateLimitPolicy) (b : Option Bucket) (now : ℕ)
    → (consumed p b now).tokens ≤ p.burst * token
unfolding consumed
tokens-consumed p none now = omega arith
tokens-consumed p (some b) now = ground arith

-- After a refusal a second request is allowed exactly if at least the announced wait has passed.
pub wait_exact :
    (p : RateLimitPolicy) (b : Option Bucket) (now later : ℕ)
    → 1 ≤ p.burst
    → (decision p b now).allowed ≡ false
    → ((decision p (some (consumed p b now)) later).allowed ≡ true)
      ↔ ((decision p b now).wait ≤ (later - now) * p.requests_per_minute)
unfolding decision consumed
wait_exact p none now later h k = absurd (ground arith)
wait_exact p (some b) now later h k = (ground arith, ground arith)
