-- ===== src/Retry/Run.antt =====
-- How `RetryPolicy.run` of retry.py ends.
use mathlib.Core.List.{append_assoc}
use inno_scalping_crawling.Common.{
  sym, ap, ◌∙◌, ℕ, zero, suc, ◌+◌, ◌-◌, ◌≤◌, ◌<◌, ◌≡◌, refl, true, false, Option, none, some, List,
  [], ◌∷◌, ◌++◌, arith, Bool-cases, inl, inr, leb, if◌then◌else◌,
}
use inno_scalping_crawling.Retry.{
  RetryState, Event, logged, alert, Setup, RunEnd, run_result, collection_failed, log_failed,
  Outcome, value, raises, run_from, next_state, retry_events, settle, Error, backoff, after,
}
use inno_scalping_crawling.Retry.Backoff.{
  delays, sleeps, alerts, sleeps-append, alerts-append, delays-suc,
}

-- The call raises.
abbrev pub Raises : {V : Type 0} → Outcome V → Type 0
Raises {V} o = (e : Error) × (o ≡ raises e)

module _ {V : Type 0} (s : Setup V) where
  -- A round in which the call raises below the limit.
  pub round :
      (fuel attempts : ℕ) (state : RetryState) (e : Error)
      → s.operation attempts ≡ raises e
      → state.terminal_error ≡ false
      → state.retry_count + 1 < s.policy.max_collect_retries
      → let next = next_state s.policy e s.source_id (some state) none (s.clock attempts) in
        run_from s (suc fuel) attempts state
        ≡ after (retry_events s next) (run_from s fuel (attempts + 1) next)
  unfolding run_from next_state
  round fuel attempts state e o t l = ground arith

  retry_events_lem :
      (state : RetryState)
      → (sleeps (retry_events s state) ≡ backoff s.policy state.retry_count ∷ [])
        × (alerts (retry_events s state) ≡ 0)
  unfolding sleeps alerts
  retry_events_lem state = ground arith

  pub retry_count-next_state :
      (e : Error) (state : RetryState) (t : ℕ)
      → (next_state s.policy e s.source_id (some state) none t).retry_count ≡ state.retry_count + 1
  unfolding next_state
  retry_count-next_state e state t = refl

  pub terminal_error-next_state :
      (e : Error) (state : RetryState) (t : ℕ)
      → (next_state s.policy e s.source_id (some state) none t).terminal_error
        ≡ leb s.policy.max_collect_retries (state.retry_count + 1)
  unfolding next_state
  terminal_error-next_state e state t = refl

  after-nil : (r : Option (RunEnd V × List Event)) → after [] r ≡ r
  after-nil none = refl
  after-nil (some (end, later)) = refl

  after-append :
      (xs ys : List Event) (r : Option (RunEnd V × List Event))
      → after xs (after ys r) ≡ after (xs ++ ys) r
  after-append xs ys none = refl
  after-append xs ys (some (end, later)) = ap (λ l. some (end, l)) (sym (append_assoc xs ys later))

  -- The rounds that raise below the limit, before what the run does next.
  pub rounds :
      (k total fuel attempts m : ℕ) (state : RetryState)
      → total ≡ k + fuel
      → m ≡ attempts + k
      → ((j : ℕ) → attempts ≤ j → j < m → Raises (s.operation j))
      → state.terminal_error ≡ false
      → state.retry_count + k ≤ s.policy.max_collect_retries - 1
      → (next : RetryState) × ((events : List Event) × (run_from s total attempts state
            ≡ after events (run_from s fuel m next))
          × (next.terminal_error ≡ false)
          × (next.retry_count ≡ state.retry_count + k)
          × (sleeps events ≡ delays s.policy state.retry_count k)
          × (alerts events ≡ 0))
  rounds zero total fuel attempts m state ft fm raising live below =
      let ft' : total ≡ fuel = omega arith in
      let fm' : m ≡ attempts = omega arith in
      (
        state,
        (
          [],
          rw (ft', fm') (sym (after-nil (run_from s fuel attempts state))),
          live,
          omega arith,
          unfold sleeps delays in refl,
          unfold alerts in refl,
        ),
      )
  rounds (suc k) zero fuel attempts m state ft fm raising live below = absurd (omega arith)
  rounds (suc k) (suc total) fuel attempts m state ft fm raising live below =
      let (e, raised) = raising attempts (omega arith) (omega arith) in
      let next = next_state s.policy e s.source_id (some state) none (s.clock attempts) in
      let counted = retry_count-next_state e state (s.clock attempts) in
      let flagged = terminal_error-next_state e state (s.clock attempts) in
      let (slept_here, alerted_here) = retry_events_lem next in
      let (last, (events, runs, live', count, naps, quiet)) =
        rounds k total fuel (attempts + 1) m next (omega arith) (omega arith)
          (λ j above below. raising j (omega arith) below) (ground (arith, flagged))
          (omega (arith, counted)) in
      (
        last,
        (
          retry_events s next ++ events,
          round total attempts state e raised live (omega arith)
              ∙ ap (after (retry_events s next)) runs
              ∙ after-append (retry_events s next) events (run_from s fuel m last),
          live',
          omega (arith, count, counted),
          sleeps-append (retry_events s next) events
              ∙ cc (slept_here, naps, counted, delays-suc s.policy state.retry_count k),
          alerts-append (retry_events s next) events ∙ omega (arith, alerted_here, quiet),
        ),
      )

  -- The round that meets the limit.
  pub last_round :
      (fuel attempts : ℕ) (state : RetryState) (e : Error)
      → s.operation attempts ≡ raises e
      → state.terminal_error ≡ false
      → s.policy.max_collect_retries ≤ state.retry_count + 1
      → let next = next_state s.policy e s.source_id (some state) none (s.clock attempts) in
        run_from s (suc fuel) attempts state
        ≡ some (
            if s.logger_raises then (log_failed, alert next ∷ []) else (
              collection_failed (record next { alerted = true }) (attempts + 1),
              logged next ∷ alert next ∷ [],
            ))
  unfolding run_from next_state
  last_round fuel attempts state e o t l = elim (Bool-cases s.logger_raises) [
    | inl silent ↦ ground arith
    | inr logs ↦ ground arith
  ]

  pub value_round :
      (fuel attempts : ℕ) (state : RetryState) (v : V)
      → s.operation attempts ≡ value v
      → run_from s (suc fuel) attempts state ≡ some (run_result v (settle state) (attempts + 1), [])
  unfolding run_from
  value_round fuel attempts state v o = ground arith
