-- ===== src/Window/Examples.antt =====
-- A window of window.py that is cut at the limit of days.
use inno_scalping_crawling.Common.{◌≡◌, ◌≤◌, ◌*◌, refl, true, some, ok, ℕ}
use inno_scalping_crawling.Window.{
  day_us, CollectionWindow, CursorValue, time, datetime, absent, whole, calculate_collection_window,
  positive_days, as_datetime, cursor_datetime, first_window, next_window, before, lookback_days,
}
use inno_scalping_crawling.Window.Bounds.{IsBounded}
use inno_scalping_crawling.Window.Recovery.{recovery_window}

abbrev cursor : CursorValue
cursor = time (datetime (10 * day_us))

abbrev now : ℕ
now = 50 * day_us

abbrev window : CollectionWindow
window = record {
  window_start = 20 * day_us;
  window_end = now;
  requested_start = 10 * day_us;
  initial_lookback_days = 7;
  max_lookback_days = 30;
  truncated = true;
}

calculated :
    calculate_collection_window 0 cursor absent (datetime now) (whole 7) (whole 30) true ≡ ok window
unfolding calculate_collection_window positive_days as_datetime cursor_datetime first_window
    next_window before
calculated = refl

read_cursor : cursor_datetime cursor ≡ some (10 * day_us)
unfolding cursor_datetime as_datetime
read_cursor = refl

recovery_window_example : IsBounded window × (lookback_days window ≤ window.max_lookback_days)
recovery_window_example =
    recovery_window 0 cursor absent (datetime now) (whole 7) (whole 30) window calculated
