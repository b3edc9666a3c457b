-- ===== src/Cursor.antt =====
-- src/scalping_briefing/pipeline/briefing_cursor.py: which earlier execution the next window
-- resumes from, and how the cursor moves.
pub mod Selection
pub mod Latest
pub mod Advance
pub mod Kept
pub mod Windows
mod Examples
use inno_scalping_crawling.Common.{
  ℕ, ◌+◌, String, Bool, true, false, not, Option, none, some, List, [], ◌∷◌, Result, ok, err, ltb,
  ◌==◌, ◌||◌, ◌&&◌, str_eq, if◌then◌else◌, ◌>>=◌,
}
use inno_scalping_crawling.Window
use inno_scalping_crawling.Window.{
  TimeValue, absent, datetime, WindowError, not_a_datetime, as_datetime, CollectionWindow,
  DaysValue, calculate_collection_window, time,
}

-- A key of a mapping: not there, there with `None`, or with a value.
pub data Slot : Type 0 where
  missing null : Slot
  given : String → Slot

-- The cursor of an execution, a mapping of these entries.
pub record RunCursor : Type 0 where
  pub window_end : TimeValue
  pub window_start : TimeValue
  pub window_truncated : Bool
  pub truncated_from : TimeValue
  pub truncated_start : TimeValue

pub data CursorField : Type 0 where
  no_cursor not_a_mapping : CursorField
  entries : RunCursor → CursorField

-- An earlier execution, as a mapping or as an object with attributes. A field that is missing or
-- `None` is `absent`.
pub record Run : Type 0 where
  pub is_mapping : Bool
  pub run_status : Slot
  pub status : Slot
  pub cursor : CursorField
  pub window_end : TimeValue
  pub scheduled_for : TimeValue

abbrev slot_value : Slot → Option String
slot_value (given s) = some s
slot_value _ = none

-- `_value(run, "run_status", "status")`: a mapping gives its first entry, also if that is `None`.
abbrev pub status_from : Bool → Slot → Slot → Option String
status_from mapping (given s) second = some s
status_from true null second = none
status_from false null second = slot_value second
status_from mapping missing second = slot_value second

-- `status == "success"`
unfoldable pub is_success : Option String → Bool
is_success none = false
is_success (some s) = str_eq s "success"

abbrev or_value : TimeValue → TimeValue → TimeValue
or_value absent later = later
or_value v later = v

abbrev cursor_window_end : CursorField → TimeValue
cursor_window_end (entries c) = c.window_end
cursor_window_end _ = absent

-- The end of a run: its window's, its cursor's, or the time that it was scheduled for.
unfoldable pub end_value : Run → TimeValue
end_value run = or_value (or_value run.window_end (cursor_window_end run.cursor)) run.scheduled_for

-- `_as_datetime` of this module, which lets `None` through.
unfoldable pub as_datetime? : TimeValue → Result WindowError (Option ℕ)
unfolding as_datetime
as_datetime? absent = ok none
as_datetime? v = do t ← as_datetime v; ok (some t)

pub record Selected : Type 0 where
  pub end : ℕ
  pub index : ℕ
  pub run : Run

-- `candidate[:2] > selected[:2]`, the order of pairs.
abbrev pub is_later : Selected → Selected → Bool
is_later a b = ltb b.end a.end || (a.end == b.end && ltb b.index a.index)

unfoldable pub prefer : Selected → Option Selected → Option Selected
prefer candidate none = some candidate
prefer candidate (some selected) =
    if is_later candidate selected then some candidate else some selected

unfoldable pub consider : ℕ → ℕ → Run → Option Selected → Option ℕ → Option Selected
unfolding prefer
consider scheduled index run selected none = selected
consider scheduled index run selected (some end) =
    if ltb scheduled end
    then selected
    else prefer (record { end = end; index = index; run = run }) selected

-- One round of the loop in `_success_run`.
unfoldable pub visit : ℕ → ℕ → Run → Option Selected → Result WindowError (Option Selected)
unfolding is_success end_value as_datetime? consider
visit scheduled index run selected =
    if not (is_success (status_from run.is_mapping run.run_status run.status))
    then ok selected
    else (do end ← as_datetime? (end_value run); ok (consider scheduled index run selected end))

unfoldable pub success_from :
    ℕ → ℕ → Option Selected → List Run → Result WindowError (Option Selected)
unfolding visit
success_from scheduled index selected [] = ok selected
success_from scheduled index selected (run ∷ runs) = do
  chosen ← visit scheduled index run selected
  success_from scheduled (index + 1) chosen runs

abbrev pub selected_run : Option Selected → Option Run
selected_run none = none
selected_run (some s) = some s.run

-- `_success_run`
unfoldable pub success_run : List Run → ℕ → Result WindowError (Option Run)
unfolding success_from
success_run runs scheduled = do s ← success_from scheduled 0 none runs; ok (selected_run s)

abbrev pub window_end_only : ℕ → RunCursor
window_end_only t = record {
  window_end = datetime t;
  window_start = absent;
  window_truncated = false;
  truncated_from = absent;
  truncated_start = absent;
}

abbrev previous_end_cursor : Option ℕ → Option RunCursor
previous_end_cursor none = none
previous_end_cursor (some t) = some (window_end_only t)

-- `_previous_cursor`
unfoldable pub previous_cursor : Option Run → Option ℕ → Option RunCursor
previous_cursor none previous_end = none
previous_cursor (some run) previous_end = elim run.cursor [
  | entries c ↦ some c
  | _ ↦ previous_end_cursor previous_end
]

-- `_next_cursor`; the prose of the truncation record is left out.
unfoldable pub next_cursor : CollectionWindow → RunCursor
next_cursor w = record {
  window_end = datetime w.window_end;
  window_start = datetime w.window_start;
  window_truncated = w.truncated;
  truncated_from = if w.truncated then datetime w.requested_start else absent;
  truncated_start = if w.truncated then datetime w.window_start else absent;
}

pub record CursorAdvance : Type 0 where
  pub window : CollectionWindow
  pub cursor : Option RunCursor
  pub advanced : Bool
  pub run_status : String

abbrev pub required : Option ℕ → Result WindowError ℕ
required none = err not_a_datetime
required (some t) = ok t

abbrev pub prior_end_value : Option Run → TimeValue
prior_end_value none = absent
prior_end_value (some run) = end_value run

abbrev pub time_of : Option ℕ → TimeValue
time_of none = absent
time_of (some t) = datetime t

-- `advance_cursor`
unfoldable pub advance_cursor :
    ℕ → List Run → TimeValue → String → DaysValue → DaysValue → Result WindowError CursorAdvance
unfolding as_datetime? success_run end_value is_success next_cursor previous_cursor
advance_cursor clock previous_runs scheduled_for run_status initial maximum = do
  given_time ← as_datetime? scheduled_for
  scheduled ← required given_time
  prior ← success_run previous_runs scheduled
  prior_end ← as_datetime? (prior_end_value prior)
  window ←
      calculate_collection_window clock (time (time_of prior_end)) absent (datetime scheduled)
        initial maximum true
  let advanced = is_success (some run_status)
  ok (record {
    window = window;
    cursor = if advanced then some (next_cursor window) else previous_cursor prior prior_end;
    advanced = advanced;
    run_status = run_status;
  })
