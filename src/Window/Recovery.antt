-- ===== src/Window/Recovery.antt =====
-- `calculate_collection_window` of window.py, as its callers see it.
use inno_scalping_crawling.Common.{
  ℕ, ◌-◌, ◌*◌, ◌≤◌, ◌<◌, ◌≡◌, ◌↔◌, Bool, true, Option, none, some, arith, ok, ltb, Bool-cases,
  if◌then◌else◌,
}
use inno_scalping_crawling.Window.{
  day_us, CollectionWindow, Limits, CursorValue, TimeValue, DaysValue, whole, time, absent,
  datetime, calculate_collection_window, cursor_datetime, lookback_days, choose_window, as_datetime,
}
use inno_scalping_crawling.Window.Bounds.{
  IsBounded, calculate_inversion, first_window-IsBounded, next_window-IsBounded,
}

recovery-IsBounded :
    (l : Limits) (p : Option ℕ) (w : CollectionWindow)
    → l.recovery ≡ true
    → choose_window l p ≡ ok w
    → IsBounded w
recovery-IsBounded l none w r h = (first_window-IsBounded l w h r).0
recovery-IsBounded l (some p) w r h = (next_window-IsBounded l p w h).0

module _ (clock : ℕ) (cursor : CursorValue) (last now : TimeValue)
    (initial maximum : DaysValue) where
  -- A window that is calculated in a recovery is bounded: it is at most as long as the limit of
  -- days, it starts at the requested start or later, and it is marked as truncated exactly if it
  -- starts later, when it has the full length.
  pub recovery_window :
      (w : CollectionWindow)
      → calculate_collection_window clock cursor last now initial maximum true ≡ ok w
      → IsBounded w × (lookback_days w ≤ w.max_lookback_days)
  unfolding lookback_days
  recovery_window w h =
      let c = calculate_inversion clock cursor last now initial maximum true w h in
      let b = recovery-IsBounded c.limits c.previous_end w c.same_recovery c.chosen in
      (b, omega (arith, b.within))

  -- With a cursor that can be read as a time the window is bounded in the same way whether or not
  -- it is a recovery; the requested start is the cursor's time, and the window does not end before
  -- it starts exactly if the cursor's time is not later than the window's end.
  pub resumed_window :
      (recovery : Bool) (p : ℕ) (w : CollectionWindow)
      → cursor_datetime cursor ≡ some p
      → calculate_collection_window clock cursor last now initial maximum recovery ≡ ok w
      → IsBounded w
        × (w.requested_start ≡ p)
        × ((w.window_start ≤ w.window_end) ↔ (p ≤ w.window_end))
  resumed_window recovery p w e h =
      let c = calculate_inversion clock cursor last now initial maximum recovery w h in
      let same : c.previous_end ≡ some p = ground (arith, c.from_cursor) in
      let (b, q, _) = next_window-IsBounded c.limits p w (rw same at c.chosen) in
      (b, q, ground (arith, b.not_earlier, b.cut, b.uncut, b.full, Bool-cases w.truncated))

-- Where the limit of days is positive and reaches back to no time before the first one, the call
-- with a cursor returns, whether or not it is a recovery: the window starts at the cursor's time,
-- or at the limit if that is later, and ends now.
pub calculate_resumed :
    (clock p end initial maximum : ℕ) (recovery : Bool)
    → 0 < maximum
    → maximum * day_us ≤ end
    → let lower = end - maximum * day_us in
      calculate_collection_window clock
        (time (datetime p))
        absent
        (datetime end)
        (whole initial)
        (whole maximum)
        recovery
      ≡ ok (record {
        window_start = if ltb p lower then lower else p;
        window_end = end;
        requested_start = p;
        initial_lookback_days = initial;
        max_lookback_days = maximum;
        truncated = ltb p lower;
      })
unfolding calculate_collection_window
calculate_resumed clock p end initial maximum recovery h k = ground arith

module _ (clock s : ℕ) (cursor : CursorValue) (initial maximum : DaysValue) (w : CollectionWindow)
    (h : calculate_collection_window clock cursor absent (datetime s) initial maximum true
      ≡ ok w) where
  at_limit_end :
      (l : Limits) (p : Option ℕ)
      → l.recovery ≡ true
      → choose_window l p ≡ ok w
      → (w.window_end ≡ l.end) × ((p ≡ none) → w.requested_start ≤ w.window_end)
  at_limit_end l none r c = let (_, q, e) = first_window-IsBounded l w c r in (e, λ _. omega arith)
  at_limit_end l (some p) r c = ((next_window-IsBounded l p w c).2, λ e. absurd (cc e))

  pub window_end-now : w.window_end ≡ s
  unfolding as_datetime
  window_end-now =
      let c = calculate_inversion clock cursor absent (datetime s) initial maximum true w h in
      ground (arith, c.from_now, at_limit_end c.limits c.previous_end c.same_recovery c.chosen)

  -- With no earlier window the requested start is not after the end.
  pub requested_start-fresh : cursor_datetime cursor ≡ none → w.requested_start ≤ w.window_end
  requested_start-fresh e =
      let c = calculate_inversion clock cursor absent (datetime s) initial maximum true w h in
      let same : c.previous_end ≡ none = ground (arith, c.from_cursor) in
      (at_limit_end c.limits c.previous_end c.same_recovery c.chosen).1 same
