-- ===== src/Window/Bounds.antt =====
-- What a window of window.py covers.
use inno_scalping_crawling.Common.{
  ℕ, ◌+◌, ◌*◌, ◌≤◌, ◌<◌, ◌≡◌, Bool, true, false, Option, arith, ok, Result-cases, inl, inr, refl,
}
use inno_scalping_crawling.Window.{
  CursorValue, TimeValue, DaysValue, positive_days, or_now, or_last_success, cursor_datetime,
  choose_window, calculate_collection_window, day_us, CollectionWindow, Limits, first_window,
  next_window, before,
}

-- The window starts where the request did or later, is marked as truncated exactly if it starts
-- later, and then is as long as its limit allows. It is never longer than that.
pub record IsBounded (w : CollectionWindow) : Type 0 where
  pub not_earlier : w.requested_start ≤ w.window_start
  pub cut : w.truncated ≡ true → w.requested_start < w.window_start
  pub uncut : w.truncated ≡ false → w.window_start ≡ w.requested_start
  pub full : w.truncated ≡ true → w.window_start + w.max_lookback_days * day_us ≡ w.window_end
  pub within : w.window_end ≤ w.window_start + w.max_lookback_days * day_us

before-add : (end n t : ℕ) → before end n ≡ ok t → t + n * day_us ≡ end
unfolding before
before-add end n t h = ground arith

pub next_window-IsBounded :
    (l : Limits) (requested : ℕ) (w : CollectionWindow)
    → next_window l requested ≡ ok w
    → IsBounded w × (w.requested_start ≡ requested) × (w.window_end ≡ l.end)
unfolding next_window
next_window-IsBounded l requested w h = elim (Result-cases (before l.end l.max_days)) [
  | inl (lower, e) ↦ ground (arith, before-add l.end l.max_days lower)
  | inr (x, e) ↦ ground arith
]

pub first_window-IsBounded :
    (l : Limits) (w : CollectionWindow)
    → first_window l ≡ ok w
    → l.recovery ≡ true
    → IsBounded w
      × (w.requested_start + l.initial_days * day_us ≡ w.window_end)
      × (w.window_end ≡ l.end)
unfolding first_window
first_window-IsBounded l w h r = elim (Result-cases (before l.end l.initial_days)) [
  | inl (requested, e) ↦ elim (Result-cases (before l.end l.max_days)) [
    | inl (lower, e') ↦
        ground (arith, before-add l.end l.max_days lower, before-add l.end l.initial_days requested)
    | inr (x, e') ↦ ground arith
  ]
  | inr (x, e) ↦ ground arith
]

-- How a call of `calculate_collection_window` that returns came to its window.
pub record Calculated (clock : ℕ) (cursor : CursorValue) (last now : TimeValue)
    (w : CollectionWindow) (recovery : Bool) : Type 0 where
  pub limits : Limits
  pub previous_end : Option ℕ
  pub positive : 0 < limits.max_days
  pub same_recovery : limits.recovery ≡ recovery
  pub from_now : or_now clock now ≡ ok limits.end
  pub from_cursor : or_last_success last (cursor_datetime cursor) ≡ ok previous_end
  pub chosen : choose_window limits previous_end ≡ ok w

module _ (clock : ℕ) (cursor : CursorValue) (last now : TimeValue) (initial maximum : DaysValue)
    (recovery : Bool) where
  pub calculate_inversion :
      (w : CollectionWindow)
      → calculate_collection_window clock cursor last now initial maximum recovery ≡ ok w
      → Calculated clock cursor last now w recovery
  unfolding calculate_collection_window
  calculate_inversion w h = elim (Result-cases (positive_days initial)) [
    | inr (x, e) ↦ absurd (ground arith)
    | inl (i, ei) ↦ elim (Result-cases (positive_days maximum)) [
      | inr (x, e) ↦ absurd (ground arith)
      | inl (m, em) ↦ elim (Result-cases (or_now clock now)) [
        | inr (x, e) ↦ absurd (ground arith)
        | inl (end, en) ↦ elim (Result-cases (or_last_success last (cursor_datetime cursor))) [
          | inr (x, e) ↦ absurd (ground arith)
          | inl (p, ep) ↦ record {
            limits = record { end = end; initial_days = i; max_days = m; recovery = recovery };
            previous_end = p;
            positive = ground arith;
            same_recovery = refl;
            from_now = en;
            from_cursor = ep;
            chosen = ground arith;
          }
        ]
      ]
    ]
  ]
