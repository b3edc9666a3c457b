-- ===== src/Retry/Ends.antt =====
-- The two ways in which `RetryPolicy.run` of retry.py ends, and that it ends.
use mathlib.Core.List.{append-nil}
use mathlib.Core.Path.{subst}
use inno_scalping_crawling.Common.{
  ℕ, zero, suc, ◌+◌, ◌-◌, ◌≤◌, ◌<◌, ◌≡◌, refl, sym, ap, ◌∙◌, true, false, some, none, List, [], ◌∷◌,
  ◌++◌, arith, Bool-cases, Option, ◌⊎◌, inl, inr, leb,
}
use inno_scalping_crawling.Retry.{
  RetryState, Event, Setup, RunEnd, run_result, collection_failed, log_failed, value, raises,
  run_from, run, initial_state, settle, failed, next_state, alert, Outcome, retry_events, logged,
  after,
}
use inno_scalping_crawling.Retry.Backoff.{delays, sleeps, alerts, sleeps-append, alerts-append}
use inno_scalping_crawling.Retry.Run.{
  Raises, rounds, last_round, value_round, round, retry_count-next_state, terminal_error-next_state,
}

evidence :
    (state : RetryState)
    → (sleeps (logged state ∷ alert state ∷ []) ≡ [])
      × (alerts (logged state ∷ alert state ∷ []) ≡ 1)
unfolding sleeps alerts
evidence state = (refl, refl)

Outcome-cases : {V : Type 0} (o : Outcome V) → ((v : V) × (o ≡ value v)) ⊎ Raises o
Outcome-cases (value v) = inl (v, refl)
Outcome-cases (raises e) = inr (e, refl)

module _ {V : Type 0} (s : Setup V) where
  failed_round :
      (fuel attempts : ℕ) (state : RetryState)
      → Raises (s.operation attempts)
      → s.logger_raises ≡ false
      → state.terminal_error ≡ false
      → s.policy.max_collect_retries ≤ state.retry_count + 1
      → (last : RetryState) × ((final : RetryState) × (run_from s (suc fuel) attempts state
            ≡ some (collection_failed last (attempts + 1), logged final ∷ alert final ∷ []))
          × (last.retry_count ≡ state.retry_count + 1)
          × (last.status ≡ failed)
          × (last.terminal_error ≡ true))
  unfolding next_state
  failed_round fuel attempts state (e, raised) logs live limit =
      let final = next_state s.policy e s.source_id (some state) none (s.clock attempts) in
      (
        record final { alerted = true },
        (
          final,
          ground (arith, last_round s fuel attempts state e raised live limit),
          refl,
          ground arith,
          ground arith,
        ),
      )

  -- If the first `k` calls raise, the next returns `v`, and `k` is below the limit (or 0), then the
  -- run returns `v` after `k + 1` calls: it counts `k` retries, has slept exactly the first `k`
  -- delays of the schedule, and has written no alert.
  pub run-value :
      (k fuel : ℕ) (v : V)
      → ((j : ℕ) → j < k → Raises (s.operation j))
      → s.operation k ≡ value v
      → k ≤ s.policy.max_collect_retries - 1
      → (state : RetryState) × ((events : List Event) × (run s (k + suc fuel)
            ≡ some (run_result v state (k + 1), events))
          × (state.retry_count ≡ k)
          × (state.terminal_error ≡ false)
          × (sleeps events ≡ delays s.policy 0 k)
          × (alerts events ≡ 0))
  unfolding run initial_state
  run-value k fuel v raising returns below =
      let start = initial_state s.source_id in
      let (next, (events, runs, live, count, naps, quiet)) =
        rounds s k (k + suc fuel) (suc fuel) 0 k start refl (omega arith) (λ j _ l. raising j l)
          refl (omega arith) in
      (
        settle next,
        (
          events,
          runs
              ∙ ap (after events) (value_round s fuel k next v returns)
              ∙ ap (λ l. some (run_result v (settle next) (k + 1), l)) (append-nil events),
          ground arith,
          ground arith,
          naps,
          quiet,
        ),
      )

  -- If every call raises, up to the limit of the policy or the first call if the limit is 0, and
  -- the logger does not raise, then the run fails after exactly that many calls: the last state is
  -- a failed one that counts them, the run has slept once between each two calls by the schedule,
  -- and it has written exactly one alert.
  pub run-failed :
      (k fuel : ℕ)
      → k ≡ s.policy.max_collect_retries - 1
      → ((j : ℕ) → j < k + 1 → Raises (s.operation j))
      → s.logger_raises ≡ false
      → (state : RetryState) × ((events : List Event) × (run s (k + suc fuel)
            ≡ some (collection_failed state (k + 1), events))
          × (state.retry_count ≡ k + 1)
          × (state.status ≡ failed)
          × (state.terminal_error ≡ true)
          × (sleeps events ≡ delays s.policy 0 k)
          × (alerts events ≡ 1))
  unfolding run initial_state next_state
  run-failed k fuel limit raising logs =
      let start = initial_state s.source_id in
      let (next, (events, runs, live, count, naps, quiet)) =
        rounds s k (k + suc fuel) (suc fuel) 0 k start refl (omega arith)
          (λ j _ l. raising j (omega arith)) refl (omega arith) in
      let (last, (final, ends, one_more, is_failed, terminal)) =
        failed_round fuel k next (raising k (omega arith)) logs live (omega (arith, count)) in
      (
        last,
        (
          events ++ logged final ∷ alert final ∷ [],
          runs ∙ ap (after events) ends,
          omega (arith, count, one_more),
          is_failed,
          terminal,
          sleeps-append events (logged final ∷ alert final ∷ [])
              ∙ (rw ((evidence final).0, append-nil) naps),
          alerts-append events (logged final ∷ alert final ∷ [])
              ∙ omega (arith, quiet, evidence final),
        ),
      )

  -- The number of calls of the operation at the end of a run; a logger that raises hides it.
  abbrev pub calls : RunEnd V → ℕ
  calls (run_result v state attempts) = attempts
  calls (collection_failed state attempts) = attempts
  calls log_failed = 0

  abbrev pub Ends : ℕ → Option (RunEnd V × List Event) → Type 0
  Ends bound r =
      (end : RunEnd V) × ((events : List Event) × (r ≡ some (end, events)) × (calls end ≤ bound))

  Ends-at_limit :
      (fuel attempts : ℕ) (state : RetryState)
      → Raises (s.operation attempts)
      → state.terminal_error ≡ false
      → s.policy.max_collect_retries ≤ state.retry_count + 1
      → Ends (attempts + 1) (run_from s (suc fuel) attempts state)
  Ends-at_limit fuel attempts state (e, raised) live limit =
      let final = next_state s.policy e s.source_id (some state) none (s.clock attempts) in
      let r = last_round s fuel attempts state e raised live limit in
      elim (Bool-cases s.logger_raises) [
        | inl silent ↦ (log_failed, (alert final ∷ [], ground (arith, r), omega arith))
        | inr logs ↦ (
          collection_failed (record final { alerted = true }) (attempts + 1),
          (logged final ∷ alert final ∷ [], ground (arith, r), omega arith),
        )
      ]

  -- An earlier start of a run adds events and keeps its end.
  Ends-after :
      (bound bound' : ℕ) (events : List Event) (r : Option (RunEnd V × List Event))
      → bound ≤ bound'
      → Ends bound r
      → Ends bound' (after events r)
  Ends-after bound bound' events r le (end, (later, e, c)) =
      (end, (events ++ later, ap (after events) e, omega arith))

  run_from-Ends :
      (fuel attempts : ℕ) (state : RetryState)
      → state.terminal_error ≡ false
      → s.policy.max_collect_retries ≤ state.retry_count + suc fuel
      → Ends (attempts + suc fuel) (run_from s (suc fuel) attempts state)
  run_from-Ends zero attempts state live enough = elim (Outcome-cases (s.operation attempts)) [
    | inl (v, o) ↦ (
      run_result v (settle state) (attempts + 1),
      ([], value_round s zero attempts state v o, omega arith),
    )
    | inr raising ↦ Ends-at_limit zero attempts state raising live enough
  ]
  run_from-Ends (suc fuel) attempts state live enough =
      elim (Outcome-cases (s.operation attempts)) [
        | inl (v, o) ↦ (
          run_result v (settle state) (attempts + 1),
          ([], value_round s (suc fuel) attempts state v o, omega arith),
        )
        | inr (e, o) ↦
            elim (Bool-cases (leb s.policy.max_collect_retries (state.retry_count + 1))) [
              | inl limit ↦
                  widen (Ends-at_limit (suc fuel) attempts state (e, o) live (ground arith))
              | inr below ↦
                  let next =
                    next_state s.policy e s.source_id (some state) none (s.clock attempts) in
                  let counted = retry_count-next_state s e state (s.clock attempts) in
                  let flagged = terminal_error-next_state s e state (s.clock attempts) in
                  let rest =
                    run_from-Ends fuel (attempts + 1) next (flagged ∙ below)
                      (omega (arith, counted)) in
                  subst (Ends (attempts + suc (suc fuel)))
                    (sym (round s (suc fuel) attempts state e o live (ground arith)))
                    (Ends-after (attempts + 1 + suc fuel) (attempts + suc (suc fuel))
                      (retry_events s next) (run_from s (suc fuel) (attempts + 1) next)
                      (omega arith) rest)
            ]
      ]
    where
      widen :
          {r : Option (RunEnd V × List Event)}
          → Ends (attempts + 1) r
          → Ends (attempts + suc (suc fuel)) r
      widen (end, (events, e, c)) = (end, (events, e, omega arith))

  -- A run whose fuel is the limit of the policy, or 1 if that is 0, always ends, whatever the
  -- operation and the logger do, and it has called the operation no more often than that.
  pub run_ends :
      (fuel : ℕ)
      → s.policy.max_collect_retries ≤ suc fuel
      → (end : RunEnd V) × ((events : List Event) × (run s (suc fuel) ≡ some (end, events))
          × (calls end ≤ suc fuel))
  unfolding run initial_state
  run_ends fuel enough =
      let (end, (events, e, c)) =
        run_from-Ends fuel 0 (initial_state s.source_id) refl (omega arith) in
      (end, (events, e, omega arith))
