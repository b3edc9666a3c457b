-- ===== src/RateLimit/Examples.antt =====
-- Two sources that share a limiter (rate_limit.py).
use inno_scalping_crawling.Common.{
  ℕ, ◌+◌, ◌-◌, ◌*◌, ◌≤◌, ◌≡◌, ◌≢◌, refl, ap, true, false, some, none, List, [], ◌∷◌, ok, Text,
  codes, strip, drop_spaces, is_space, is_filled, text_eq, lookup, insert, arith,
}
use inno_scalping_crawling.RateLimit.{
  token, RateLimitPolicy, Bucket, Decision, SourceRateLimiter, check_policy, refill, decision,
  consumed, policy_for, acquire, check,
}
use inno_scalping_crawling.RateLimit.Buckets.{IsPast}
use inno_scalping_crawling.RateLimit.Sources.{acquire_independent}
use inno_scalping_crawling.RateLimit.Grants.{Requests, granted, granted_at_most}

abbrev policy : RateLimitPolicy
policy = record { requests_per_minute = 60; burst = 2 }

abbrev limiter : List (Text × Bucket) → SourceRateLimiter
limiter buckets = record { policies = []; default_policy = some policy; buckets = buckets }

abbrev empty_bucket : Bucket
empty_bucket = record { tokens = 0; last_timestamp = 5_000_000 }

abbrev spent : SourceRateLimiter
spent = limiter ((codes "a", empty_bucket) ∷ [])

known :
    (buckets : List (Text × Bucket)) (s : Text) → policy_for (limiter buckets) s none ≡ ok policy
unfolding policy_for check_policy lookup
known buckets s = refl

abbrev requests : Requests
requests =
    (codes "a", 5_000_000)
    ∷ (codes "b", 5_000_000)
    ∷ (codes "a", 5_100_000)
    ∷ (codes "a", 5_200_000)
    ∷ []

fresh : lookup (codes "a") (limiter []).buckets ≡ none
unfolding lookup
fresh = refl

granted_at_most_example :
    granted (limiter []) (codes "a") requests * token ≤ 2 * token + (6_000_000 - 5_000_000) * 60
granted_at_most_example =
    granted_at_most (limiter []) (codes "a") policy 5_000_000 6_000_000 requests
      (known [] (codes "a")) fresh
      (omega arith, (omega arith, (omega arith, (omega arith, omega arith))))

past : IsPast (lookup (codes "a") spent.buckets) 5_000_000
unfolding lookup text_eq
past = omega arith

refused : (decision policy (some empty_bucket) 5_000_000).allowed ≡ false
unfolding decision refill
refused = refl

abbrev first_request : Decision × SourceRateLimiter
first_request = (
  record { allowed = true; wait = 0 },
  limiter ((codes "a", record { tokens = token; last_timestamp = 5_000_000 }) ∷ []),
)

acquired : acquire (limiter []) (codes "a") none 5_000_000 ≡ ok first_request
unfolding acquire policy_for check_policy decision consumed lookup insert is_filled strip
    drop_spaces is_space
acquired = refl

abbrev first_code : Text → ℕ
first_code [] = 0
first_code (c ∷ _) = c

other_source : codes "a" ≢ codes "b"
other_source e = let first : 97 ≡ 98 = ap first_code e in omega (arith, first)

acquire_independent_example :
    check first_request.1 (codes "b") none 6_000_000 ≡ check (limiter []) (codes "b") none 6_000_000
acquire_independent_example =
    acquire_independent (limiter []) first_request.1 (codes "a") (codes "b") none none 5_000_000
      6_000_000 first_request.0 acquired other_source
