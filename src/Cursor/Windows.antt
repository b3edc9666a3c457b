-- ===== src/Cursor/Windows.antt =====
-- Successive calls of `advance_cursor` (briefing_cursor.py).
use mathlib.Core.Path.{subst}
use inno_scalping_crawling.Common.{
  refl, sym, ap, ◌∙◌, Bool-cases, str_eq, ℕ, ◌≤◌, ◌≡◌, String, true, some, List, arith, ok, In, ◌⊎◌,
  inl, inr,
}
use inno_scalping_crawling.Window.{TimeValue, datetime, DaysValue}
use inno_scalping_crawling.Window.Bounds.{IsBounded}
use inno_scalping_crawling.Window.Recovery.{recovery_window}
use inno_scalping_crawling.Cursor.{
  Run, RunCursor, CursorAdvance, advance_cursor, as_datetime?, next_cursor, is_success,
}
use inno_scalping_crawling.Cursor.Selection.{IsEligible}
use inno_scalping_crawling.Cursor.Latest.{IsLatest, success_run-IsLatest}
use inno_scalping_crawling.Cursor.Advance.{
  Advanced, advance_inversion, at_scheduled, requested_start-le, meets,
}

module _ (clock : ℕ) (runs : List Run) (scheduled_for : TimeValue) (status : String)
    (initial maximum : DaysValue) (a : CursorAdvance)
    (returned : advance_cursor clock runs scheduled_for status initial maximum ≡ ok a) where
  steps : Advanced clock runs scheduled_for status initial maximum a
  steps = advance_inversion clock runs scheduled_for status initial maximum a returned

  latest : IsLatest steps.scheduled runs steps.prior
  latest = success_run-IsLatest runs steps.scheduled steps.prior steps.found

  same_time : (s : ℕ) → as_datetime? scheduled_for ≡ ok (some s) → steps.scheduled ≡ s
  same_time s e = ground (arith, steps.at_time)

  is_bounded : IsBounded a.window
  is_bounded = (recovery_window clock _ _ _ initial maximum a.window steps.calculated).0

  start_le_end : a.window.window_start ≤ a.window.window_end
  start_le_end = ground (
    arith,
    is_bounded,
    Bool-cases a.window.truncated,
    requested_start-le clock runs scheduled_for status initial maximum a steps steps.prior refl
        latest,
  )

  -- Every call that returns gives a bounded window that ends at the scheduled time and does not end
  -- before it starts, whatever the earlier executions were and however this one ended.
  pub advance_cursor-window :
      (s : ℕ)
      → as_datetime? scheduled_for ≡ ok (some s)
      → (a.window.window_end ≡ s)
        × (a.window.window_start ≤ a.window.window_end)
        × IsBounded a.window
  advance_cursor-window s e = (
    at_scheduled clock runs scheduled_for status initial maximum a steps ∙ same_time s e,
    start_le_end,
    is_bounded,
  )

  -- If an earlier execution succeeded, ended no later than the scheduled time, and no other such
  -- execution ended later, then the next window is requested from that end on: it never starts
  -- before it, and it starts exactly there unless it is truncated.
  pub windows_meet :
      (s : ℕ) (r : Run) (end : ℕ)
      → as_datetime? scheduled_for ≡ ok (some s)
      → In r runs
      → IsEligible s r end
      → ((x : Run) (other : ℕ) → In x runs → IsEligible s x other → other ≤ end)
      → (a.window.requested_start ≡ end)
        × (end ≤ a.window.window_start)
        × ((a.window.truncated ≡ true) ⊎ (a.window.window_start ≡ end))
  windows_meet s r end e m q all =
      let t = same_time s e in
      let start =
        meets clock runs scheduled_for status initial maximum a steps steps.prior r end refl latest
          m (subst (λ x. IsEligible x r end) (sym t) q)
          (λ x other n p. all x other n (subst (λ y. IsEligible y x other) t p)) in
      (
        start,
        omega (arith, start, is_bounded.not_earlier),
        elim (Bool-cases a.window.truncated) [
          | inl cut ↦ inl cut
          | inr uncut ↦ inr (is_bounded.uncut uncut ∙ start)
        ],
      )

  -- If the execution succeeded, the cursor moves to the end of the new window, which is the
  -- scheduled time.
  pub advance_cursor-moved :
      (s : ℕ)
      → as_datetime? scheduled_for ≡ ok (some s)
      → str_eq status "success" ≡ true
      → (c : RunCursor) × (a.cursor ≡ some c) × (c.window_end ≡ datetime s)
  unfolding is_success next_cursor
  advance_cursor-moved s e won = (
    next_cursor a.window,
    steps.moved (steps.flag ∙ won),
    ap datetime
        (at_scheduled clock runs scheduled_for status initial maximum a steps ∙ same_time s e),
  )
