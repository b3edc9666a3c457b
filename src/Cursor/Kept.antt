-- ===== src/Cursor/Kept.antt =====
-- The cursor that `advance_cursor` of briefing_cursor.py gives to an execution that did not succeed.
use mathlib.Core.Path.{subst}
use inno_scalping_crawling.Common.{
  ℕ, ◌≤◌, ◌≡◌, ◌≢◌, refl, sym, ap, ◌∙◌, String, str_eq, false, Option, none, some, List, arith, ok,
  In, ◌⊎◌, inl, inr,
}
use inno_scalping_crawling.Window.{TimeValue, DaysValue}
use inno_scalping_crawling.Cursor.{
  Run, RunCursor, CursorField, CursorAdvance, advance_cursor, as_datetime?, previous_cursor,
  is_success, entries, no_cursor, not_a_mapping, window_end_only,
}
use inno_scalping_crawling.Cursor.Selection.{IsEligible}
use inno_scalping_crawling.Cursor.Latest.{IsLatest, success_run-IsLatest}
use inno_scalping_crawling.Cursor.Advance.{Advanced, advance_inversion, prior_end-IsEligible}

-- The cursor of a run that ended then: its own if that is a mapping, or one with its end alone.
pub record IsCursorOf (run : Run) (end : ℕ) (cursor : Option RunCursor) : Type 0 where
  pub own : (c : RunCursor) → run.cursor ≡ entries c → cursor ≡ some c
  pub of_end : ((c : RunCursor) → run.cursor ≢ entries c) → cursor ≡ some (window_end_only end)

-- No eligible run and no cursor, or the cursor of an eligible run that no other ends after.
abbrev pub IsCarriedOver : ℕ → List Run → Option RunCursor → Type 0
IsCarriedOver scheduled runs cursor =
    (((r : Run) (end : ℕ) → In r runs → ¬ IsEligible scheduled r end) × (cursor ≡ none))
    ⊎ ((run : Run) × (end : ℕ) × In run runs
        × IsEligible scheduled run end
        × ((r : Run) (other : ℕ) → In r runs → IsEligible scheduled r other → other ≤ end)
        × IsCursorOf run end cursor)

previous_cursor-IsCursorOf :
    (run : Run) (end : ℕ) → IsCursorOf run end (previous_cursor (some run) (some end))
unfolding previous_cursor
previous_cursor-IsCursorOf run end = record {
  own = λ c e. rw e refl;
  of_end = λ other. by_field run.cursor refl other;
}
  where
    by_field :
        (f : CursorField)
        → run.cursor ≡ f
        → ((c : RunCursor) → run.cursor ≢ entries c)
        → previous_cursor (some run) (some end) ≡ some (window_end_only end)
    by_field (entries c) e other = absurd (other c e)
    by_field no_cursor e other = rw e refl
    by_field not_a_mapping e other = rw e refl

module _ (clock : ℕ) (runs : List Run) (scheduled_for : TimeValue) (status : String)
    (initial maximum : DaysValue) (a : CursorAdvance)
    (returned : advance_cursor clock runs scheduled_for status initial maximum ≡ ok a) where
  carried_over :
      (h : Advanced clock runs scheduled_for status initial maximum a) (prior : Option Run)
      → h.prior ≡ prior
      → IsLatest h.scheduled runs prior
      → a.advanced ≡ false
      → IsCarriedOver h.scheduled runs a.cursor
  unfolding previous_cursor
  carried_over h none e latest lost =
      inl (latest, h.kept lost ∙ ap (λ p. previous_cursor p h.prior_end) e)
  carried_over h (some run) e (m, (end, q, all)) lost =
      let ended =
        prior_end-IsEligible clock runs scheduled_for status initial maximum a h run end e q in
      let same : a.cursor ≡ previous_cursor (some run) (some end) =
        h.kept lost
        ∙ ap (λ p. previous_cursor p h.prior_end) e
        ∙ ap (previous_cursor (some run)) ended in
      inr (
        run,
        end,
        m,
        q,
        all,
        subst (IsCursorOf run end) (sym same) (previous_cursor-IsCursorOf run end),
      )

  -- An execution that did not succeed does not move the cursor, whatever the earlier executions
  -- were: it is that of the latest execution that succeeded and ended by the scheduled time, namely
  -- its cursor where this is a mapping and otherwise a cursor with its end alone, and there is none
  -- if no execution is of this kind.
  pub advance_cursor-kept :
      (s : ℕ)
      → as_datetime? scheduled_for ≡ ok (some s)
      → str_eq status "success" ≡ false
      → IsCarriedOver s runs a.cursor
  unfolding is_success
  advance_cursor-kept s e lost =
      let h = advance_inversion clock runs scheduled_for status initial maximum a returned in
      subst (λ t. IsCarriedOver t runs a.cursor) (ground (arith, h.at_time, e))
        (carried_over h h.prior refl (success_run-IsLatest runs h.scheduled h.prior h.found)
          (h.flag ∙ lost))
