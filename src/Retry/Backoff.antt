-- ===== src/Retry/Backoff.antt =====
-- The exponential schedule of retry.py.
use native.Mathlib.Nat.{pow-suc}
use inno_scalping_crawling.Common.{
  ℕ, zero, suc, ◌+◌, ◌-◌, ◌*◌, ◌^◌, ◌≤◌, ◌<◌, ◌≡◌, List, [], ◌∷◌, ◌++◌, arith, refl,
}
use inno_scalping_crawling.Retry.{RetryPolicy, backoff, Event, slept, logged, alert, on_retry}

-- A later delay is never shorter, and no delay is longer than the limit of the policy.
pub backoff_bounds :
    (p : RetryPolicy) (n : ℕ)
    → 0 < n
    → (backoff p n ≤ backoff p (n + 1)) × (backoff p n ≤ p.max_backoff)
unfolding backoff
backoff_bounds p zero h = elim h [ ]
backoff_bounds p (suc n) h =
    let here : suc n - 1 ≡ n = omega arith in
    let next : suc n + 1 - 1 ≡ suc n = omega arith in
    let grows : p.base_backoff * 2 ^ n ≤ p.base_backoff * 2 ^ suc n =
      rw (pow-suc 2 n) (omega arith) in
    rw (here, next) (ground arith)

-- The delays before the calls number `from + 1` to `from + n`.
unfoldable pub delays : RetryPolicy → ℕ → ℕ → List ℕ
delays p from zero = []
delays p from (suc n) = backoff p (from + 1) ∷ delays p (from + 1) n

pub delays-suc :
    (p : RetryPolicy) (from n : ℕ)
    → delays p from (suc n) ≡ backoff p (from + 1) ∷ delays p (from + 1) n
unfolding delays
delays-suc p from n = refl

-- What a run slept, and how many alerts it wrote.
unfoldable pub sleeps : List Event → List ℕ
sleeps [] = []
sleeps (slept d ∷ events) = d ∷ sleeps events
sleeps (logged s ∷ events) = sleeps events
sleeps (alert s ∷ events) = sleeps events
sleeps (on_retry s ∷ events) = sleeps events

unfoldable pub alerts : List Event → ℕ
alerts [] = 0
alerts (slept d ∷ events) = alerts events
alerts (logged s ∷ events) = alerts events
alerts (alert s ∷ events) = suc (alerts events)
alerts (on_retry s ∷ events) = alerts events

pub sleeps-append : (xs ys : List Event) → sleeps (xs ++ ys) ≡ sleeps xs ++ sleeps ys
unfolding sleeps
sleeps-append [] ys = refl
sleeps-append (slept d ∷ xs) ys = cc (sleeps-append xs ys)
sleeps-append (logged s ∷ xs) ys = sleeps-append xs ys
sleeps-append (alert s ∷ xs) ys = sleeps-append xs ys
sleeps-append (on_retry s ∷ xs) ys = sleeps-append xs ys

pub alerts-append : (xs ys : List Event) → alerts (xs ++ ys) ≡ alerts xs + alerts ys
unfolding alerts
alerts-append [] ys = omega arith
alerts-append (slept d ∷ xs) ys = alerts-append xs ys
alerts-append (logged s ∷ xs) ys = alerts-append xs ys
alerts-append (alert s ∷ xs) ys = omega (arith, alerts-append xs ys)
alerts-append (on_retry s ∷ xs) ys = alerts-append xs ys
