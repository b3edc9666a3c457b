-- ===== src/Cursor/Advance.antt =====
-- `advance_cursor` of briefing_cursor.py: the windows of successive executions, and the cursor of
-- one that did not succeed.
use inno_scalping_crawling.Common.{
  ℕ, ◌≤◌, ◌≡◌, String, true, false, Option, none, some, List, arith, ok, Result-cases, In, inl, inr,
}
use inno_scalping_crawling.Window.{
  TimeValue, absent, datetime, time, DaysValue, cursor_datetime, calculate_collection_window,
}
use inno_scalping_crawling.Window.Recovery.{resumed_window, window_end-now, requested_start-fresh}
use inno_scalping_crawling.Cursor.{
  Run, CursorAdvance, success_run, advance_cursor, as_datetime?, time_of, prior_end_value,
  previous_cursor, next_cursor, is_success,
}
use inno_scalping_crawling.Cursor.Selection.{IsEligible}
use inno_scalping_crawling.Cursor.Latest.{IsLatest}

-- How a call of `advance_cursor` that returns came to its result.
pub record Advanced (clock : ℕ) (runs : List Run) (scheduled_for : TimeValue) (status : String)
    (initial maximum : DaysValue) (a : CursorAdvance) : Type 0 where
  pub scheduled : ℕ
  pub prior : Option Run
  pub prior_end : Option ℕ
  pub at_time : as_datetime? scheduled_for ≡ ok (some scheduled)
  pub found : success_run runs scheduled ≡ ok prior
  pub ended : as_datetime? (prior_end_value prior) ≡ ok prior_end
  pub calculated :
      calculate_collection_window clock
        (time (time_of prior_end))
        absent
        (datetime scheduled)
        initial
        maximum
        true
      ≡ ok a.window
  pub flag : a.advanced ≡ is_success (some status)
  pub moved : a.advanced ≡ true → a.cursor ≡ some (next_cursor a.window)
  pub kept : a.advanced ≡ false → a.cursor ≡ previous_cursor prior prior_end

module _ (clock : ℕ) (runs : List Run) (scheduled_for : TimeValue) (status : String)
    (initial maximum : DaysValue) (a : CursorAdvance) where
  pub advance_inversion :
      advance_cursor clock runs scheduled_for status initial maximum ≡ ok a
      → Advanced clock runs scheduled_for status initial maximum a
  unfolding advance_cursor
  advance_inversion h = elim (Result-cases (as_datetime? scheduled_for)) [
    | inr (x, e) ↦ absurd (ground arith)
    | inl (none, e) ↦ absurd (ground arith)
    | inl (some scheduled, et) ↦ elim (Result-cases (success_run runs scheduled)) [
      | inr (x, e) ↦ absurd (ground arith)
      | inl (prior, ep) ↦ elim (Result-cases (as_datetime? (prior_end_value prior))) [
        | inr (x, e) ↦ absurd (ground arith)
        | inl (prior_end, ee) ↦
            elim (Result-cases (
              calculate_collection_window clock (time (time_of prior_end)) absent
                (datetime scheduled) initial maximum true)) [
                  | inr (x, e) ↦ absurd (ground arith)
                  | inl (w, ew) ↦ record {
                    scheduled = scheduled;
                    prior = prior;
                    prior_end = prior_end;
                    at_time = et;
                    found = ep;
                    ended = ee;
                    calculated = ground arith;
                    flag = ground arith;
                    moved = ground arith;
                    kept = ground arith;
                  }
                ]
      ]
    ]
  ]

module _ (clock : ℕ) (runs : List Run) (scheduled_for : TimeValue) (status : String)
    (initial maximum : DaysValue) (a : CursorAdvance)
    (h : Advanced clock runs scheduled_for status initial maximum a) where
  -- The requested start is where the earlier execution ended.
  requested_start-prior : (end : ℕ) → h.prior_end ≡ some end → a.window.requested_start ≡ end
  unfolding cursor_datetime
  requested_start-prior end e =
      (resumed_window clock (time (time_of h.prior_end)) absent (datetime h.scheduled) initial
        maximum true end a.window (ground arith) h.calculated).1

  pub prior_end-IsEligible :
      (run : Run) (end : ℕ)
      → h.prior ≡ some run
      → IsEligible h.scheduled run end
      → h.prior_end ≡ some end
  prior_end-IsEligible run end e q = ground (arith, h.ended, q.at_end)

  pub at_scheduled : a.window.window_end ≡ h.scheduled
  at_scheduled =
      window_end-now clock h.scheduled (time (time_of h.prior_end)) initial maximum a.window
        h.calculated

  pub requested_start-le :
      (prior : Option Run)
      → h.prior ≡ prior
      → IsLatest h.scheduled runs prior
      → a.window.requested_start ≤ a.window.window_end
  unfolding cursor_datetime as_datetime?
  requested_start-le none e latest =
      requested_start-fresh clock h.scheduled (time (time_of h.prior_end)) initial maximum a.window
        h.calculated (ground (arith, h.ended))
  requested_start-le (some run) e (m, (end, q, all)) =
      omega (
        arith,
        requested_start-prior end (prior_end-IsEligible run end e q),
        at_scheduled,
        q.in_time,
      )

  pub meets :
      (prior : Option Run) (r : Run) (end : ℕ)
      → h.prior ≡ prior
      → IsLatest h.scheduled runs prior
      → In r runs
      → IsEligible h.scheduled r end
      → ((x : Run) (other : ℕ) → In x runs → IsEligible h.scheduled x other → other ≤ end)
      → a.window.requested_start ≡ end
  meets none r end e latest m q all = absurd (latest r end m q)
  meets (some run) r end e (m', (end', q', all')) m q all = omega (
    arith,
    requested_start-prior end' (prior_end-IsEligible run end' e q'),
    all' r end m q,
    all run end' m' q',
  )
