-- ===== src/Window.antt =====
-- src/scalping_briefing/sources/window.py: the interval that one collection attempt covers.
-- An instant is the number of microseconds since datetime.min in UTC, so a subtraction that would
-- go below it raises, as `datetime - timedelta` does.
pub mod Bounds
pub mod Recovery
mod Examples
use inno_scalping_crawling.Common.{
  ℕ, ◌-◌, ◌*◌, ◌/◌, Bool, true, false, Option, none, some, List, [], ◌∷◌, Result, ok, err, raise_if,
  leb, ltb, ◌==◌, if◌then◌else◌, ◌>>=◌, ◌>>◌,
}

abbrev pub day_us : ℕ
day_us = 86_400_000_000

-- A value that is read as a time. A `datetime` is given by its instant, a naive one read as UTC; a
-- `date` by its days since `date.min`; a text by the instant that `datetime.fromisoformat` reads in
-- it, if it reads one.
pub data TimeValue : Type 0 where
  absent : TimeValue
  datetime : ℕ → TimeValue
  date : ℕ → TimeValue
  text : Option ℕ → TimeValue
  other : TimeValue

pub data WindowError : Type 0 where
  not_a_datetime not_iso_8601 not_non_negative_integer max_days_not_positive : WindowError
  date_out_of_range : WindowError

-- `_as_datetime`
unfoldable pub as_datetime : TimeValue → Result WindowError ℕ
as_datetime absent = err not_a_datetime
as_datetime (datetime t) = ok t
as_datetime (date d) = ok (d * day_us)
as_datetime (text (some t)) = ok t
as_datetime (text none) = err not_iso_8601
as_datetime other = err not_a_datetime

-- A number of days as a caller gives it: what `int` makes of it, or a boolean or a value that
-- `int` refuses.
pub data DaysValue : Type 0 where
  whole : ℕ → DaysValue
  negative : ℕ → DaysValue
  not_an_integer : DaysValue

-- `_positive_days`
unfoldable pub positive_days : DaysValue → Result WindowError ℕ
positive_days (whole n) = ok n
positive_days (negative n) = err not_non_negative_integer
positive_days not_an_integer = err not_non_negative_integer

-- The entries of a cursor mapping that are read, in the order in which they are tried.
pub record CursorFields : Type 0 where
  pub window_end : TimeValue
  pub last_success_at : TimeValue
  pub last_success : TimeValue
  pub updated_at : TimeValue
  pub timestamp : TimeValue

pub data CursorValue : Type 0 where
  time : TimeValue → CursorValue
  mapping : CursorFields → CursorValue

-- A value that is missing or not a time is passed over.
abbrev readable : Result WindowError ℕ → Option ℕ
readable (ok t) = some t
readable (err _) = none

abbrev or_else : Option ℕ → Option ℕ → Option ℕ
or_else (some t) _ = some t
or_else none later = later

unfoldable pub first_readable : List TimeValue → Option ℕ
unfolding as_datetime
first_readable [] = none
first_readable (v ∷ values) = or_else (readable (as_datetime v)) (first_readable values)

-- `_cursor_datetime`
unfoldable pub cursor_datetime : CursorValue → Option ℕ
unfolding first_readable as_datetime
cursor_datetime (time v) = readable (as_datetime v)
cursor_datetime (mapping f) =
    first_readable
      (f.window_end ∷ f.last_success_at ∷ f.last_success ∷ f.updated_at ∷ f.timestamp ∷ [])

pub record CollectionWindow : Type 0 where
  pub window_start : ℕ
  pub window_end : ℕ
  pub requested_start : ℕ
  pub initial_lookback_days : ℕ
  pub max_lookback_days : ℕ
  pub truncated : Bool

-- `max(0, (window_end - window_start).days)`
unfoldable pub lookback_days : CollectionWindow → ℕ
lookback_days w = (w.window_end - w.window_start) / day_us

unfoldable pub truncated_from : CollectionWindow → Option ℕ
truncated_from w = if w.truncated then some w.requested_start else none

-- `end - timedelta(days=n)`
unfoldable pub before : ℕ → ℕ → Result WindowError ℕ
before end n = if leb (n * day_us) end then ok (end - n * day_us) else err date_out_of_range

pub record Limits : Type 0 where
  pub end : ℕ
  pub initial_days : ℕ
  pub max_days : ℕ
  pub recovery : Bool

abbrev make_window : Limits → ℕ → ℕ → Bool → CollectionWindow
make_window l start requested truncated = record {
  window_start = start;
  window_end = l.end;
  requested_start = requested;
  initial_lookback_days = l.initial_days;
  max_lookback_days = l.max_days;
  truncated = truncated;
}

-- `start` is moved up to the lower bound if it is earlier.
abbrev bounded : Limits → ℕ → ℕ → CollectionWindow
bounded l requested lower =
    if ltb requested lower
    then make_window l lower requested true
    else make_window l requested requested false

-- With no earlier window the bound holds only in a recovery.
unfoldable pub first_window : Limits → Result WindowError CollectionWindow
unfolding before
first_window l = do
  requested ← before l.end l.initial_days
  if l.recovery
      then (do lower ← before l.end l.max_days; ok (bounded l requested lower))
      else ok (make_window l requested requested false)

-- With an earlier window the test of `recovery` only saves the first of two equal comparisons.
unfoldable pub next_window : Limits → ℕ → Result WindowError CollectionWindow
unfolding before
next_window l requested = do
  enter ←
      if l.recovery then ok true else (do lower ← before l.end l.max_days; ok (ltb requested lower))
  if enter
      then (do lower ← before l.end l.max_days; ok (bounded l requested lower))
      else ok (make_window l requested requested false)

abbrev pub choose_window : Limits → Option ℕ → Result WindowError CollectionWindow
choose_window l none = first_window l
choose_window l (some requested) = next_window l requested

abbrev pub or_now : ℕ → TimeValue → Result WindowError ℕ
or_now clock absent = ok clock
or_now clock v = as_datetime v

abbrev pub or_last_success : TimeValue → Option ℕ → Result WindowError (Option ℕ)
or_last_success last (some t) = ok (some t)
or_last_success absent none = ok none
or_last_success last none = do t ← as_datetime last; ok (some t)

-- `clock` is what `datetime.now(UTC)` returns.
unfoldable pub calculate_collection_window :
    ℕ
    → CursorValue
    → TimeValue
    → TimeValue
    → DaysValue
    → DaysValue
    → Bool
    → Result WindowError CollectionWindow
unfolding positive_days as_datetime cursor_datetime first_window next_window
calculate_collection_window clock cursor last_success_at now initial maximum recovery = do
  initial_days ← positive_days initial
  max_days ← positive_days maximum
  raise_if (max_days == 0) max_days_not_positive
  end ← or_now clock now
  previous_end ← or_last_success last_success_at (cursor_datetime cursor)
  choose_window
      (record { end = end; initial_days = initial_days; max_days = max_days; recovery = recovery })
      previous_end
