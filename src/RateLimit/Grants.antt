-- ===== src/RateLimit/Grants.antt =====
-- How many requests a source is granted by rate_limit.py, among the requests of all sources.
use mathlib.Core.Path.{subst}
use inno_scalping_crawling.Common.{
  lookup, ℕ, ◌+◌, ◌-◌, ◌*◌, ◌≤◌, ◌≡◌, refl, sym, ap, ◌∙◌, Option, none, some, List, [], ◌∷◌, arith,
  ok, err, Text, text_eq, text_eq_sound, Bool-cases, Result-cases, inl, inr, if◌then◌else◌, ◌&&◌,
}
use inno_scalping_crawling.RateLimit.{
  token, RateLimitPolicy, Bucket, Decision, SourceRateLimiter, policy_for, acquire, check_policy,
  or_default, require,
}
use inno_scalping_crawling.RateLimit.Buckets.{
  credit, IsPast, credit-consumed, credit-later, last_timestamp-consumed,
}
use inno_scalping_crawling.RateLimit.Sources.{
  policy_for-acquire, lookup-acquire_ne, lookup-acquire_self,
}

-- Requests as they reach the limiter, each with its source and its time.
abbrev pub Requests : Type 0
Requests = List (Text × ℕ)

-- The times never go back, from `now` until `until`.
abbrev pub InOrder : ℕ → ℕ → Requests → Type 0
InOrder now until [] = now ≤ until
InOrder now until ((s, t) ∷ requests) = (now ≤ t) × InOrder t until requests

abbrev granted_one : Text → Text → Decision → ℕ
granted_one s source d = if text_eq s source && d.allowed then 1 else 0

-- How many of the requests of a source `acquire` allows. A request that raises changes nothing.
unfoldable pub granted : SourceRateLimiter → Text → Requests → ℕ
granted l source [] = 0
granted l source ((s, t) ∷ requests) = elim (acquire l s none t) [
  | err e ↦ granted l source requests
  | ok (d, l') ↦ granted_one s source d + granted l' source requests
]

check_policy_lem :
    (o : Option RateLimitPolicy) (p : RateLimitPolicy) → require o ≡ ok p → 1 ≤ p.burst
unfolding check_policy
check_policy_lem none p h = absurd (ground arith)
check_policy_lem (some q) p h = ground arith

pub burst_positive :
    (l : SourceRateLimiter) (s : Text) (p? : Option RateLimitPolicy) (p : RateLimitPolicy)
    → policy_for l s p? ≡ ok p
    → 1 ≤ p.burst
unfolding policy_for
burst_positive l s p? p h =
    check_policy_lem (or_default p? (or_default (lookup s l.policies) l.default_policy)) p h

IsPast-later : (b : Option Bucket) (now t : ℕ) → IsPast b now → now ≤ t → IsPast b t
IsPast-later none now t h k = tt
IsPast-later (some b) now t h k = omega arith

-- One request, of this source or another.
granted_step :
    (l l' : SourceRateLimiter) (source s : Text) (p : RateLimitPolicy) (now t : ℕ) (d : Decision)
    → policy_for l source none ≡ ok p
    → IsPast (lookup source l.buckets) now
    → now ≤ t
    → acquire l s none t ≡ ok (d, l')
    → IsPast (lookup source l'.buckets) t
      × (granted_one s source d * token + credit p (lookup source l'.buckets) t
          ≤ credit p (lookup source l.buckets) now + (t - now) * p.requests_per_minute)
granted_step l l' source s p now t d h past le a = elim (Bool-cases (text_eq s source)) [
  | inr other ↦
      let same = lookup-acquire_ne l l' s source none t d a other in
      (
        subst (λ b. IsPast b t) (sym same) (IsPast-later (lookup source l.buckets) now t past le),
        rw (other, same) (omega (arith, credit-later p (lookup source l.buckets) now t past le)),
      )
  | inl own ↦
      let e = text_eq_sound s source own in
      let (b, ed) =
        lookup-acquire_self l l' source none p t d
          (subst (λ x. acquire l x none t ≡ ok (d, l')) e a) h in
      (
        subst (λ x. IsPast x t) (sym b)
            (omega (arith, last_timestamp-consumed p (lookup source l.buckets) t)),
        rw (own, b, ed)
            (ground (
              arith,
              credit-later p (lookup source l.buckets) now t past le,
              credit-consumed p (lookup source l.buckets) t (burst_positive l source none p h),
            )),
      )
]

InOrder-le : (now until : ℕ) (requests : Requests) → InOrder now until requests → now ≤ until
InOrder-le now until [] h = h
InOrder-le now until ((s, t) ∷ requests) (le, order) =
    omega (arith, InOrder-le t until requests order)

sum_of_gaps : (a b c r : ℕ) → a ≤ b → b ≤ c → (b - a) * r + (c - b) * r ≡ (c - a) * r
sum_of_gaps a b c r h k = let e : c - a ≡ (b - a) + (c - b) = omega arith in rw e (omega arith)

-- With times that never go back, the requests that a source is granted cost no more than its credit
-- at the start and what its policy adds until the end, however the requests of other sources come
-- in between.
pub granted-credit :
    (l : SourceRateLimiter) (source : Text) (p : RateLimitPolicy) (now until : ℕ)
    (requests : Requests)
    → policy_for l source none ≡ ok p
    → IsPast (lookup source l.buckets) now
    → InOrder now until requests
    → granted l source requests * token
      ≤ credit p (lookup source l.buckets) now + (until - now) * p.requests_per_minute
unfolding granted
granted-credit l source p now until [] h past order = omega arith
granted-credit l source p now until ((s, t) ∷ requests) h past (le, order) =
    let spent = InOrder-le t until requests order in
    let whole = sum_of_gaps now t until p.requests_per_minute le spent in
    elim (Result-cases (acquire l s none t)) [
      | inr (x, e) ↦
          let later = credit-later p (lookup source l.buckets) now t past le in
          let rest =
            granted-credit l source p t until requests h
              (IsPast-later (lookup source l.buckets) now t past le) order in
          rw (e, granted) (omega (arith, later, rest, whole))
      | inl ((d, l'), e) ↦
          let (past', step) = granted_step l l' source s p now t d h past le e in
          let rest =
            granted-credit l' source p t until requests
              (policy_for-acquire l l' s source none none t d e ∙ h) past' order in
          rw (e, granted) (omega (arith, step, rest, whole))
    ]

credit-fresh : (p : RateLimitPolicy) (now : ℕ) → credit p none now ≡ p.burst * token
unfolding credit
credit-fresh p now = refl

-- With times that never go back, a source that has not asked before is granted, from then on, at
-- most its burst and the rate of its policy times the time that passes, whatever other sources ask.
pub granted_at_most :
    (l : SourceRateLimiter) (source : Text) (p : RateLimitPolicy) (now until : ℕ)
    (requests : Requests)
    → policy_for l source none ≡ ok p
    → lookup source l.buckets ≡ none
    → InOrder now until requests
    → granted l source requests * token ≤ p.burst * token + (until - now) * p.requests_per_minute
granted_at_most l source p now until requests h fresh order =
    let bound =
      granted-credit l source p now until requests h (subst (λ b. IsPast b now) (sym fresh) tt)
        order in
    let start : credit p (lookup source l.buckets) now ≡ p.burst * token =
      ap (λ b. credit p b now) fresh ∙ credit-fresh p now in
    omega (arith, bound, start)
