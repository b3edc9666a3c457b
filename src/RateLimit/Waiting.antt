-- ===== src/RateLimit/Waiting.antt =====
-- `acquire_or_wait` of rate_limit.py.
use inno_scalping_crawling.Common.{
  lookup, insert, ℕ, suc, ◌+◌, ◌-◌, ◌*◌, ◌≤◌, ◌≡◌, refl, ap, ◌∙◌, true, false, Option, List, [],
  ◌∷◌, arith, ok, Text, Bool-cases, Result-cases, Result, err, ltb, inl, inr, is_filled, length,
}
use inno_scalping_crawling.RateLimit.{
  RateLimitPolicy, Decision, decision, consumed, SourceRateLimiter, policy_for, acquire, wait_from,
  acquire_or_wait, LimitError,
}
use inno_scalping_crawling.RateLimit.Buckets.{wait_exact}
use inno_scalping_crawling.RateLimit.Sources.{policy_for-acquire, lookup-acquire_self}
use inno_scalping_crawling.RateLimit.Grants.{burst_positive}

module _ (l : SourceRateLimiter) (s : Text) (p? : Option RateLimitPolicy) (p : RateLimitPolicy)
    (named : is_filled s ≡ true) (known : policy_for l s p? ≡ ok p) where
  acquire_returns :
      (now : ℕ)
      → acquire l s p? now
        ≡ ok (
          decision p (lookup s l.buckets) now,
          record l { buckets = insert s (consumed p (lookup s l.buckets) now) l.buckets },
        )
  unfolding acquire
  acquire_returns now = ground arith

  wait_from-allowed :
      (clock : ℕ → ℕ) (round waits : ℕ) (d : Decision) (l' : SourceRateLimiter)
      → acquire l s p? (clock round) ≡ ok (d, l')
      → d.allowed ≡ true
      → wait_from l s p? clock round (suc waits) ≡ ok (d, l', [])
  unfolding wait_from
  wait_from-allowed clock round waits d l' e a = ground arith

-- What a refused round adds to the rest of the loop.
abbrev onto :
    ℕ
    → Result LimitError (Decision × SourceRateLimiter × List ℕ)
    → Result LimitError (Decision × SourceRateLimiter × List ℕ)
onto w (ok (d, l, slept)) = ok (d, l, w ∷ slept)
onto w (err e) = err e

wait_from-refused :
    (l : SourceRateLimiter) (s : Text) (p? : Option RateLimitPolicy) (clock : ℕ → ℕ)
    (round waits : ℕ) (d : Decision) (l' : SourceRateLimiter)
    → acquire l s p? (clock round) ≡ ok (d, l')
    → d.allowed ≡ false
    → wait_from l s p? clock round (suc waits)
      ≡ onto d.wait (wait_from l' s p? clock (round + 1) waits)
unfolding wait_from
wait_from-refused l s p? clock round waits d l' e a =
    elim (Result-cases (wait_from l' s p? clock (round + 1) waits)) [
      | inl ((d', l'', slept), r) ↦ ground arith
      | inr (x, r) ↦ ground arith
    ]

acquire_or_wait-wait_from :
    (l : SourceRateLimiter) (s : Text) (p? : Option RateLimitPolicy) (clock : ℕ → ℕ) (waits : ℕ)
    → acquire_or_wait l s p? clock (suc waits) ≡ wait_from l s p? clock 0 (suc waits)
unfolding acquire_or_wait
acquire_or_wait-wait_from l s p? clock waits =
    rw (positive (suc waits) (omega arith), acquire_or_wait) refl
  where
    positive : (n : ℕ) → 1 ≤ n → ltb n 1 ≡ false
    positive n h = ground arith

-- Without the rounding of floating point, a source with a policy that is asked for again after a
-- sleep of at least the announced wait is allowed then, so `acquire_or_wait` returns an allowed
-- decision after one sleep at most, if it may wait twice.
pub acquire_or_wait_returns :
    (l : SourceRateLimiter) (s : Text) (p? : Option RateLimitPolicy) (p : RateLimitPolicy)
    (clock : ℕ → ℕ) (waits : ℕ)
    → is_filled s ≡ true
    → policy_for l s p? ≡ ok p
    → (decision p (lookup s l.buckets) (clock 0)).wait ≤ (clock 1 - clock 0) * p.requests_per_minute
    → (d : Decision) × ((l' : SourceRateLimiter) × ((slept : List ℕ) × (acquire_or_wait l s p? clock
              (suc (suc waits))
            ≡ ok (d, l', slept))
          × (d.allowed ≡ true)
          × (length slept ≤ 1)))
acquire_or_wait_returns l s p? p clock waits named known enough =
    let bucket = lookup s l.buckets in
    let d = decision p bucket (clock 0) in
    let l' : SourceRateLimiter = record l {
      buckets = insert s (consumed p bucket (clock 0)) l.buckets;
    } in
    let start = acquire_or_wait-wait_from l s p? clock (suc waits) in
    let first = acquire_returns l s p? p named known (clock 0) in
    elim (Bool-cases d.allowed) [
      | inl now ↦ (
        d,
        (
          l',
          (
            [],
            start ∙ wait_from-allowed l s p? p named known clock 0 (suc waits) d l' first now,
            now,
            omega arith,
          ),
        ),
      )
      | inr refused ↦
          let known' = policy_for-acquire l l' s s p? p? (clock 0) d first ∙ known in
          let (bucket', _) = lookup-acquire_self l l' s p? p (clock 0) d first known in
          let second = acquire_returns l' s p? p named known' (clock 1) in
          let granted : (decision p (lookup s l'.buckets) (clock 1)).allowed ≡ true =
            ap (λ b. (decision p b (clock 1)).allowed) bucket'
            ∙ (wait_exact p bucket (clock 0) (clock 1) (burst_positive l s p? p known) refused).1
                enough in
          (
            decision p (lookup s l'.buckets) (clock 1),
            (
              record l' {
                buckets = insert s (consumed p (lookup s l'.buckets) (clock 1)) l'.buckets;
              },
              (
                d.wait ∷ [],
                start
                    ∙ wait_from-refused l s p? clock 0 (suc waits) d l' first refused
                    ∙ ap (onto d.wait)
                        (wait_from-allowed l' s p? p named known' clock 1 waits _ _ second granted),
                granted,
                omega arith,
              ),
            ),
          )
    ]
