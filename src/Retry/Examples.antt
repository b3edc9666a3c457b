-- ===== src/Retry/Examples.antt =====
-- An operation that times out twice, and one that always does (retry.py).
use inno_scalping_crawling.Common.{
  ℕ, ◌≤◌, ◌<◌, ◌≡◌, refl, true, false, some, List, ltb, arith, if◌then◌else◌, lt→ltb,
}
use inno_scalping_crawling.Retry.{
  Error, exception, RetryPolicy, Setup, Outcome, value, raises, RunEnd, run_result,
  collection_failed, run, Event, RetryState, failed,
}
use inno_scalping_crawling.Retry.Backoff.{delays, sleeps, alerts}
use inno_scalping_crawling.Retry.Run.{Raises}
use inno_scalping_crawling.Retry.Ends.{run-value, run-failed, run_ends, calls}

abbrev policy : RetryPolicy
policy = record { max_collect_retries = 3; base_backoff = 1_000_000; max_backoff = 30_000_000 }

abbrev timeout : Error
timeout = exception "TimeoutError" "timed out"

abbrev setup : (ℕ → Outcome ℕ) → Setup ℕ
setup operation = record {
  policy = policy;
  logger_raises = false;
  has_on_retry = true;
  source_id = some "exchange";
  operation = operation;
  clock = λ n. n;
}

-- The calls number 0 and 1 raise.
abbrev twice : ℕ → Outcome ℕ
twice n = if ltb n 2 then raises timeout else value 7

twice-Raises : (j : ℕ) → j < 2 → Raises (twice j)
twice-Raises j h = (timeout, rw (lt→ltb j 2 h) refl)

always_raises : (j : ℕ) → j < 3 → Raises ((setup (λ n. raises timeout)).operation j)
always_raises j h = (timeout, refl)

run-value_example :
    (state : RetryState) × ((events : List Event) × (run (setup twice) 3
        ≡ some (run_result 7 state 3, events))
      × (state.retry_count ≡ 2)
      × (state.terminal_error ≡ false)
      × (sleeps events ≡ delays policy 0 2)
      × (alerts events ≡ 0))
run-value_example = run-value (setup twice) 2 0 7 twice-Raises refl (omega arith)

run-failed_example :
    (state : RetryState) × ((events : List Event) × (run (setup (λ n. raises timeout)) 3
        ≡ some (collection_failed state 3, events))
      × (state.retry_count ≡ 3)
      × (state.status ≡ failed)
      × (state.terminal_error ≡ true)
      × (sleeps events ≡ delays policy 0 2)
      × (alerts events ≡ 1))
run-failed_example = run-failed (setup (λ n. raises timeout)) 2 0 refl always_raises refl

run_ends_example :
    (end : RunEnd ℕ) × ((events : List Event) × (run (setup twice) 3 ≡ some (end, events))
      × (calls (setup twice) end ≤ 3))
run_ends_example = run_ends (setup twice) 2 (omega arith)
