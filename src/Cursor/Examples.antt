-- ===== src/Cursor/Examples.antt =====
-- An execution that resumes from an earlier one (briefing_cursor.py).
use inno_scalping_crawling.Common.{
  ◌≡◌, ◌≤◌, ◌*◌, refl, true, false, some, List, [], ◌∷◌, ok, ℕ, String, str_eq, In, inl, inr, ◌⊎◌,
  arith,
}
use inno_scalping_crawling.Window.{
  day_us, CollectionWindow, datetime, absent, whole, calculate_collection_window, positive_days,
  as_datetime, cursor_datetime, first_window, next_window, before,
}
use inno_scalping_crawling.Cursor.{
  Run, given, missing, entries, window_end_only, CursorAdvance, advance_cursor, as_datetime?,
  success_run, success_from, visit, is_success, end_value, consider, prefer, next_cursor,
  previous_cursor,
}
use inno_scalping_crawling.Cursor.Selection.{IsEligible}
use inno_scalping_crawling.Cursor.Latest.{IsLatest, success_run-IsLatest}
use inno_scalping_crawling.Cursor.Windows.{windows_meet}
use inno_scalping_crawling.Cursor.Kept.{IsCarriedOver, advance_cursor-kept}

abbrev run_at : String → ℕ → Run
run_at status days = record {
  is_mapping = true;
  run_status = given status;
  status = missing;
  cursor = entries (window_end_only (days * day_us));
  window_end = absent;
  scheduled_for = absent;
}

abbrev runs : List Run
runs = run_at "success" 40 ∷ run_at "failed" 47 ∷ run_at "success" 43 ∷ []

abbrev scheduled : ℕ
scheduled = 50 * day_us

abbrev window : CollectionWindow
window = record {
  window_start = 43 * day_us;
  window_end = scheduled;
  requested_start = 43 * day_us;
  initial_lookback_days = 7;
  max_lookback_days = 30;
  truncated = false;
}

abbrev advance : CursorAdvance
advance = record {
  window = window;
  cursor = some (record {
    window_end = datetime scheduled;
    window_start = datetime (43 * day_us);
    window_truncated = false;
    truncated_from = absent;
    truncated_start = absent;
  });
  advanced = true;
  run_status = "success";
}

found : success_run runs scheduled ≡ ok (some (run_at "success" 43))
unfolding success_run success_from visit is_success end_value as_datetime? as_datetime consider
    prefer
found = refl

advanced : advance_cursor 0 runs (datetime scheduled) "success" (whole 7) (whole 30) ≡ ok advance
unfolding advance_cursor success_run success_from visit is_success end_value as_datetime?
    as_datetime consider prefer next_cursor previous_cursor calculate_collection_window
    positive_days cursor_datetime first_window next_window before
advanced = refl

scheduled_time : as_datetime? (datetime scheduled) ≡ ok (some scheduled)
unfolding as_datetime? as_datetime
scheduled_time = refl

eligible :
    (days : ℕ)
    → days * day_us ≤ scheduled
    → IsEligible scheduled (run_at "success" days) (days * day_us)
unfolding is_success end_value as_datetime? as_datetime
eligible days h = record { success = refl; at_end = refl; in_time = h }

success_run-IsLatest_example : IsLatest scheduled runs (some (run_at "success" 43))
success_run-IsLatest_example =
    success_run-IsLatest runs scheduled (some (run_at "success" 43)) found

none_later : (x : Run) (other : ℕ) → In x runs → IsEligible scheduled x other → other ≤ 43 * day_us
unfolding end_value as_datetime? as_datetime
none_later x other m e =
    let (_, (end, q, most)) =
      success_run-IsLatest runs scheduled (some (run_at "success" 43)) found in
    ground (arith, most x other m e, q.at_end)

windows_meet_example :
    (window.requested_start ≡ 43 * day_us)
    × (43 * day_us ≤ window.window_start)
    × ((window.truncated ≡ true) ⊎ (window.window_start ≡ 43 * day_us))
windows_meet_example =
    windows_meet 0 runs (datetime scheduled) "success" (whole 7) (whole 30) advance advanced
      scheduled (run_at "success" 43) (43 * day_us) scheduled_time (inr (inr (inl refl)))
      (eligible 43 (omega arith)) none_later

won : str_eq "success" "success" ≡ true
won = refl

lost : str_eq "partial" "success" ≡ false
lost = refl

abbrev no_advance : CursorAdvance
no_advance = record {
  window = window;
  cursor = some (window_end_only (43 * day_us));
  advanced = false;
  run_status = "partial";
}

not_advanced :
    advance_cursor 0 runs (datetime scheduled) "partial" (whole 7) (whole 30) ≡ ok no_advance
unfolding advance_cursor success_run success_from visit is_success end_value as_datetime?
    as_datetime consider prefer next_cursor previous_cursor calculate_collection_window
    positive_days cursor_datetime first_window next_window before
not_advanced = refl

advance_cursor-kept_example : IsCarriedOver scheduled runs no_advance.cursor
advance_cursor-kept_example =
    advance_cursor-kept 0 runs (datetime scheduled) "partial" (whole 7) (whole 30) no_advance
      not_advanced scheduled scheduled_time lost
