-- ===== src/Retry.antt =====
-- src/scalping_briefing/net/retry.py: bounded retries with evidence of a terminal failure.
-- Times and delays are whole microseconds. The calls of `operation` and of the clock are numbered
-- from 0; what the policy does outside (log, alert, callback, sleep) is a list of events.
pub mod Backoff
mod Examples
pub mod Run
pub mod Ends
use inno_scalping_crawling.Common.{
  ℕ, zero, suc, ◌+◌, ◌-◌, ◌*◌, ◌^◌, String, Bool, true, false, Option, none, some, List, [], ◌∷◌,
  ◌++◌, Result, ok, err, leb, ltb, ◌==◌, str_eq, if◌then◌else◌,
}

-- An exception with the name of its class and its text, or a plain reason.
pub data Error : Type 0 where
  exception : String → String → Error
  reason : String → Error

-- `_error_class`
unfoldable pub error_class : Error → String
error_class (exception name message) = name
error_class (reason t) = if str_eq t "" then "collection_error" else t

-- `_error_message`
unfoldable pub error_message : Error → String
error_message (exception name message) = if str_eq message "" then name else message
error_message (reason t) = t

pub data Status : Type 0 where
  pending retry_scheduled failed success : Status

pub record RetryState : Type 0 where
  pub error_class : Option String
  pub retry_count : ℕ
  pub next_retry_at : Option ℕ
  pub last_error_at : Option ℕ
  pub terminal_error : Bool
  pub status : Status
  pub source_id : Option String
  pub error_message : Option String
  pub alerted : Bool

pub record RetryPolicy : Type 0 where
  pub max_collect_retries : ℕ
  pub base_backoff : ℕ
  pub max_backoff : ℕ

pub data Event : Type 0 where
  logged alert : RetryState → Event
  on_retry : RetryState → Event
  slept : ℕ → Event

pub data RetryError : Type 0 where
  retry_count_below_one log_not_written : RetryError

abbrev pub min : ℕ → ℕ → ℕ
min a b = if leb a b then a else b

unfoldable pub backoff : RetryPolicy → ℕ → ℕ
backoff p retry_count = min p.max_backoff (p.base_backoff * 2 ^ (retry_count - 1))

-- `RetryPolicy.backoff_seconds`
unfoldable pub backoff_seconds : RetryPolicy → ℕ → Result RetryError ℕ
unfolding backoff
backoff_seconds p retry_count =
    if ltb retry_count 1 then err retry_count_below_one else ok (backoff p retry_count)

-- `_emit_terminal_failure`: a logger that raises does not keep the alert from being written.
unfoldable pub emit_terminal_failure : Bool → RetryState → Result RetryError RetryState × List Event
emit_terminal_failure logger_raises state =
    if logger_raises
    then (err log_not_written, alert state ∷ [])
    else (ok (record state { alerted = true }), logged state ∷ alert state ∷ [])

abbrev pub prior_count : Option RetryState → Option ℕ → ℕ
prior_count (some state) _ = state.retry_count
prior_count none (some n) = n
prior_count none none = 0

abbrev pub is_terminal : Option RetryState → Bool
is_terminal none = false
is_terminal (some state) = state.terminal_error

abbrev state_source : Option RetryState → Option String
state_source none = none
state_source (some state) = state.source_id

abbrev pub or_source : Option String → Option String → Option String
or_source (some s) _ = some s
or_source none later = later

-- The state that `record_failure` builds.
unfoldable pub next_state :
    RetryPolicy → Error → Option String → Option RetryState → Option ℕ → ℕ → RetryState
unfolding backoff error_class error_message
next_state p error source state retry_count timestamp =
    let count = prior_count state retry_count + 1 in
    let terminal = leb p.max_collect_retries count in
    record {
      error_class = some (error_class error);
      retry_count = count;
      next_retry_at = if terminal then none else some (timestamp + backoff p count);
      last_error_at = some timestamp;
      terminal_error = terminal;
      status = if terminal then failed else retry_scheduled;
      source_id = or_source source (state_source state);
      error_message = some (error_message error);
      alerted = false;
    }

abbrev pub emit_if_terminal : Bool → RetryState → Result RetryError RetryState × List Event
emit_if_terminal logger_raises next =
    if next.terminal_error then emit_terminal_failure logger_raises next else (ok next, [])

-- `RetryPolicy.record_failure`
unfoldable pub record_failure :
    RetryPolicy
    → Bool
    → Error
    → Option String
    → Option RetryState
    → Option ℕ
    → ℕ
    → Result RetryError RetryState × List Event
unfolding next_state emit_terminal_failure
record_failure p logger_raises error source none retry_count timestamp =
    emit_if_terminal logger_raises (next_state p error source none retry_count timestamp)
record_failure p logger_raises error source (some state) retry_count timestamp =
    if state.terminal_error
    then (ok state, [])
    else emit_if_terminal logger_raises
        (next_state p error source (some state) retry_count timestamp)

-- One call of the operation: it returns a value or raises.
pub data Outcome (V : Type 0) : Type 0 where
  value : V → Outcome V
  raises : Error → Outcome V

-- How `run` ends. The last two are its exceptions.
pub data RunEnd (V : Type 0) : Type 0 where
  run_result : V → RetryState → ℕ → RunEnd V
  collection_failed : RetryState → ℕ → RunEnd V
  log_failed : RunEnd V

pub record Setup (V : Type 0) : Type 0 where
  pub policy : RetryPolicy
  pub logger_raises : Bool
  pub has_on_retry : Bool
  pub source_id : Option String
  pub operation : ℕ → Outcome V
  pub clock : ℕ → ℕ

unfoldable pub initial_state : Option String → RetryState
initial_state source = record {
  error_class = none;
  retry_count = 0;
  next_retry_at = none;
  last_error_at = none;
  terminal_error = false;
  status = pending;
  source_id = source;
  error_message = none;
  alerted = false;
}

-- The state beside a value that the operation returned.
abbrev pub settle : RetryState → RetryState
settle state =
    if state.retry_count == 0
    then state
    else record state { status = success; next_retry_at = none }

module _ {V : Type 0} where
  abbrev pub after : List Event → Option (RunEnd V × List Event) → Option (RunEnd V × List Event)
  after events none = none
  after events (some (end, later)) = some (end, events ++ later)

  abbrev pub retry_events : Setup V → RetryState → List Event
  retry_events s state =
      let pause = slept (backoff s.policy state.retry_count) ∷ [] in
      if s.has_on_retry then on_retry state ∷ pause else pause

  -- `while True`, by fuel: `attempts` calls of the operation have been made.
  unfoldable pub run_from : Setup V → ℕ → ℕ → RetryState → Option (RunEnd V × List Event)
  unfolding record_failure
  run_from s zero attempts state = none
  run_from s (suc fuel) attempts state = elim (s.operation attempts) [
    | value v ↦ some (run_result v (settle state) (attempts + 1), [])
    | raises error ↦
        let (r, events) =
          record_failure s.policy s.logger_raises error s.source_id (some state) none
            (s.clock attempts) in
        elim r [
          | err e ↦ some (log_failed, events)
          | ok next ↦ elim next.terminal_error [
            | true ↦ some (collection_failed next (attempts + 1), events)
            | false ↦ after (events ++ retry_events s next) (run_from s fuel (attempts + 1) next)
          ]
        ]
  ]

  -- `RetryPolicy.run`
  unfoldable pub run : Setup V → ℕ → Option (RunEnd V × List Event)
  unfolding run_from initial_state
  run s fuel = run_from s fuel 0 (initial_state s.source_id)
