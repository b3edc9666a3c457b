-- ===== src/Schedule.antt =====
-- src/scalping_briefing/pipeline/schedule.py: the weekly slots of a briefing and their occurrences.
-- A local date and time is the number of the day, where day 0 is a Monday, and the microsecond of
-- the day. Two of one time zone compare as Python compares them, by the date and then the time. The
-- conversion into the time zone (`_zone`, `_local_datetime`) is done before: it is zoneinfo's.
pub mod Parsed
pub mod Next
pub mod Between
mod Examples
use inno_scalping_crawling.Common.{
  ℕ, zero, suc, ◌+◌, ◌-◌, ◌*◌, ◌%◌, Bool, true, false, not, ◌&&◌, ◌||◌, Option, none, some, List,
  [], ◌∷◌, ◌++◌, Result, ok, err, raise_if, if◌then◌else◌, ltb, leb, ◌==◌, Text, codes, strip,
  between, any, lookup, ◌>>=◌, ◌>>◌,
}

pub record Moment : Type 0 where
  pub day : ℕ
  pub time : ℕ

-- `ScheduleSlot`
pub record Slot : Type 0 where
  pub weekday : ℕ
  pub time : ℕ

pub data ScheduleError : Type 0 where
  no_entries not_a_string invalid_entry duplicate_entry : ScheduleError
  weekday_out_of_range end_before_start no_next_occurrence : ScheduleError

-- `_DAY_NUMBERS`
unfoldable pub day_numbers : List (Text × ℕ)
day_numbers =
    (codes "MON", 0)
    ∷ (codes "TUE", 1)
    ∷ (codes "WED", 2)
    ∷ (codes "THU", 3)
    ∷ (codes "FRI", 4)
    ∷ (codes "SAT", 5)
    ∷ (codes "SUN", 6)
    ∷ []

abbrev pub is_digit : ℕ → Bool
is_digit c = between 48 57 c

-- `[01][0-9]|2[0-3]` and `[0-5][0-9]`
abbrev pub is_hour : ℕ → ℕ → Bool
is_hour h i = (between 48 49 h && is_digit i) || (h == 50 && between 48 51 i)

abbrev pub is_minute : ℕ → ℕ → Bool
is_minute m n = between 48 53 m && is_digit n

abbrev pub two_digits : ℕ → ℕ → ℕ
two_digits h i = 10 * (h - 48) + (i - 48)

-- `time(hour, minute)`, in microseconds.
abbrev pub time_of : ℕ → ℕ → ℕ
time_of hour minute = (60 * hour + minute) * 60_000_000

-- `_ENTRY_PATTERN.fullmatch` and the slot that its groups give.
unfoldable pub match_entry : Text → Option Slot
match_entry (a ∷ b ∷ c ∷ space ∷ h ∷ i ∷ colon ∷ m ∷ n ∷ []) =
    if space == 32 && colon == 58 && is_hour h i && is_minute m n
    then slot_on (lookup (a ∷ b ∷ c ∷ []) day_numbers) (time_of (two_digits h i) (two_digits m n))
    else none
  where
    slot_on : Option ℕ → ℕ → Option Slot
    slot_on none t = none
    slot_on (some d) t = some (record { weekday = d; time = t })
match_entry _ = none

-- Whether a slot comes before another in the order `(slot[0], slot[1])`, and is the same slot.
abbrev pub slot_leb : Slot → Slot → Bool
slot_leb s t = ltb s.weekday t.weekday || (s.weekday == t.weekday && leb s.time t.time)

abbrev pub slot_eq : Slot → Slot → Bool
slot_eq s t = s.weekday == t.weekday && s.time == t.time

-- `sort` with that key.
unfoldable pub insert_slot : Slot → List Slot → List Slot
insert_slot s [] = s ∷ []
insert_slot s (t ∷ l) = if slot_leb s t then s ∷ t ∷ l else t ∷ insert_slot s l

unfoldable pub sort_slots : List Slot → List Slot
sort_slots [] = []
sort_slots (s ∷ l) = insert_slot s (sort_slots l)

-- One entry, `none` for what is no `str`.
unfoldable pub parse_entry : Option Text → Result ScheduleError Slot
unfolding match_entry
parse_entry none = err not_a_string
parse_entry (some entry) = matched (match_entry (strip entry))
  where
    matched : Option Slot → Result ScheduleError Slot
    matched none = err invalid_entry
    matched (some s) = ok s

-- The loop of `parse_schedule`.
unfoldable pub parse_entries : List (Option Text) → List Slot → Result ScheduleError (List Slot)
parse_entries [] parsed = ok parsed
parse_entries (entry ∷ entries) parsed = do
  slot ← parse_entry entry
  raise_if (any (slot_eq slot) parsed) duplicate_entry
  parse_entries entries (parsed ++ (slot ∷ []))

unfoldable pub parse_schedule : List (Option Text) → Result ScheduleError (List Slot)
parse_schedule entries = do
  raise_if (is_nil entries) no_entries
  parsed ← parse_entries entries []
  ok (sort_slots parsed)
  where
    is_nil : List (Option Text) → Bool
    is_nil [] = true
    is_nil (_ ∷ _) = false

unfoldable pub has_duplicates : List Slot → Bool
has_duplicates [] = false
has_duplicates (s ∷ l) = any (slot_eq s) l || has_duplicates l

-- What is given as a schedule: one text, entries, or slots. The weekday of a given slot is no
-- negative number here.
pub data Schedule : Type 0 where
  one_text : Text → Schedule
  texts : List (Option Text) → Schedule
  slots : Slot → List Slot → Schedule

-- `_slots`
unfoldable pub slots_of : Schedule → Result ScheduleError (List Slot)
slots_of (one_text s) = parse_schedule (some s ∷ [])
slots_of (texts entries) = parse_schedule entries
slots_of (slots s l) = do
  raise_if (any (λ t. ltb 6 t.weekday) (s ∷ l)) weekday_out_of_range
  raise_if (has_duplicates (s ∷ l)) duplicate_entry
  ok (sort_slots (s ∷ l))

abbrev pub is_before : Moment → Moment → Bool
is_before a b = ltb a.day b.day || (a.day == b.day && ltb a.time b.time)

-- `_occurrence_on`
abbrev pub occurrence_on : ℕ → Slot → Moment
occurrence_on day s = record { day = day; time = s.time }

-- The inner loop of `next_occurrence`: the first slot of the day that comes after the moment.
unfoldable pub next_on : Moment → ℕ → List Slot → Option Moment
next_on moment day [] = none
next_on moment day (s ∷ l) =
    let rest = next_on moment day l in
    if s.weekday == day % 7 && is_before moment (occurrence_on day s)
    then some (occurrence_on day s)
    else rest

abbrev pub or_later : Option Moment → Option Moment → Option Moment
or_later none later = later
or_later (some o) later = some o

-- The outer loop, over so many days from `day` on.
unfoldable pub next_within : ℕ → Moment → ℕ → List Slot → Option Moment
next_within zero moment day l = none
next_within (suc n) moment day l =
    or_later (next_on moment day l) (next_within n moment (suc day) l)

unfoldable pub next_occurrence : Moment → Schedule → Result ScheduleError Moment
next_occurrence after schedule = do l ← slots_of schedule; found (next_within 8 after after.day l)
  where
    found : Option Moment → Result ScheduleError Moment
    found none = err no_next_occurrence
    found (some o) = ok o

-- The inner loop of `occurrences_between`.
unfoldable pub between_on : Moment → Moment → ℕ → List Slot → List Moment
between_on start end day [] = []
between_on start end day (s ∷ l) =
    let rest = between_on start end day l in
    if s.weekday == day % 7
      && (not (is_before (occurrence_on day s) start) && is_before (occurrence_on day s) end)
    then occurrence_on day s ∷ rest
    else rest

-- The outer loop, over so many days from `day` on.
unfoldable pub between_days : ℕ → Moment → Moment → ℕ → List Slot → List Moment
between_days zero start end day l = []
between_days (suc n) start end day l =
    between_on start end day l ++ between_days n start end (suc day) l

unfoldable pub occurrences_between : Moment → Moment → Schedule → Result ScheduleError (List Moment)
occurrences_between start end schedule = do
  raise_if (is_before end start) end_before_start
  l ← slots_of schedule
  ok (between_days (end.day + 1 - start.day) start end start.day l)
