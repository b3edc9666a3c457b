-- ===== src/RateLimit/Sources.antt =====
-- Many sources share a limiter of rate_limit.py: none spends another's allowance, and none gets
-- more than its policy grants.
use inno_scalping_crawling.Common.{
  lookup, insert, lookup-insert_self, lookup-insert_ne, text_ne, ℕ, ◌≡◌, ◌≢◌, ap, ◌∙◌, false, not,
  Option, some, arith, ok, Text, text_eq, Bool-cases, Result-cases, inl, inr, is_filled, ◌>>=◌,
}
use inno_scalping_crawling.RateLimit.{
  RateLimitPolicy, Decision, decision, consumed, SourceRateLimiter, policy_for, acquire, check,
}

-- A call of `acquire` that returns.
acquire_lem :
    (l l' : SourceRateLimiter) (s : Text) (p? : Option RateLimitPolicy) (now : ℕ) (d : Decision)
    → acquire l s p? now ≡ ok (d, l')
    → (p : RateLimitPolicy) × (policy_for l s p? ≡ ok p)
      × (d ≡ decision p (lookup s l.buckets) now)
      × (l' ≡ record l { buckets = insert s (consumed p (lookup s l.buckets) now) l.buckets })
unfolding acquire
acquire_lem l l' s p? now d h = elim (Bool-cases (not (is_filled s))) [
  | inl empty ↦ absurd (ground arith)
  | inr named ↦ elim (Result-cases (policy_for l s p?)) [
    | inr (x, e) ↦ absurd (ground arith)
    | inl (p, e) ↦ (p, e, ground arith, ground arith)
  ]
]

-- `check` gives the decision that `acquire` would give, and raises where `acquire` does.
pub check-acquire :
    (l : SourceRateLimiter) (s : Text) (p? : Option RateLimitPolicy) (now : ℕ)
    → check l s p? now ≡ (acquire l s p? now >>= λ r. ok r.0)
unfolding check acquire
check-acquire l s p? now = elim (Bool-cases (not (is_filled s))) [
  | inl empty ↦ ground arith
  | inr named ↦ elim (Result-cases (policy_for l s p?)) [
    | inr (x, e) ↦ ground arith
    | inl (p, e) ↦ ground arith
  ]
]

-- What a call of `acquire` leaves as it was.
pub policy_for-acquire :
    (l l' : SourceRateLimiter) (s t : Text) (p? q? : Option RateLimitPolicy) (now : ℕ)
    (d : Decision)
    → acquire l s p? now ≡ ok (d, l')
    → policy_for l' t q? ≡ policy_for l t q?
unfolding policy_for
policy_for-acquire l l' s t p? q? now d h =
    let (p, _, _, e) = acquire_lem l l' s p? now d h in ap (λ x. policy_for x t q?) e

pub lookup-acquire_ne :
    (l l' : SourceRateLimiter) (s t : Text) (p? : Option RateLimitPolicy) (now : ℕ) (d : Decision)
    → acquire l s p? now ≡ ok (d, l')
    → text_eq s t ≡ false
    → lookup t l'.buckets ≡ lookup t l.buckets
lookup-acquire_ne l l' s t p? now d h ne =
    let (p, _, _, e) = acquire_lem l l' s p? now d h in
    ap (λ x. lookup t x.buckets) e
    ∙ lookup-insert_ne t s (consumed p (lookup s l.buckets) now) l.buckets ne

pub lookup-acquire_self :
    (l l' : SourceRateLimiter) (s : Text) (p? : Option RateLimitPolicy) (p : RateLimitPolicy)
    (now : ℕ) (d : Decision)
    → acquire l s p? now ≡ ok (d, l')
    → policy_for l s p? ≡ ok p
    → (lookup s l'.buckets ≡ some (consumed p (lookup s l.buckets) now))
      × (d ≡ decision p (lookup s l.buckets) now)
lookup-acquire_self l l' s p? p now d h k =
    let (p', k', ed, e) = acquire_lem l l' s p? now d h in
    let same : p' ≡ p = cc (k, k') in
    (
      ap (λ x. lookup s x.buckets) e
          ∙ lookup-insert_self s (consumed p' (lookup s l.buckets) now) l.buckets
          ∙ ap (λ x. some (consumed x (lookup s l.buckets) now)) same,
      ed ∙ ap (λ x. decision x (lookup s l.buckets) now) same,
    )

-- A request of one source changes no decision about another, at that time or later.
pub acquire_independent :
    (l l' : SourceRateLimiter) (s t : Text) (p? q? : Option RateLimitPolicy) (now later : ℕ)
    (d : Decision)
    → acquire l s p? now ≡ ok (d, l')
    → s ≢ t
    → check l' t q? later ≡ check l t q? later
unfolding check
acquire_independent l l' s t p? q? now later d h ne =
    let policy = policy_for-acquire l l' s t p? q? now d h in
    let bucket = lookup-acquire_ne l l' s t p? now d h (text_ne s t ne) in
    elim (Result-cases (policy_for l t q?)) [
      | inr (x, e) ↦ ground arith
      | inl (p, e) ↦ ground arith
    ]
