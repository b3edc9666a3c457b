-- ===== src/Schedule/Examples.antt =====
-- A schedule of two slots a week (schedule.py), from a Wednesday on.
use inno_scalping_crawling.Common.{
  ◌≡◌, ◌↔◌, ◌⊎◌, refl, false, true, some, List, [], ◌∷◌, ok, codes, strip, drop_spaces, is_space,
  lookup, text_eq, In, ℕ,
}
use inno_scalping_crawling.Schedule.{
  Moment, Slot, Schedule, texts, slots_of, parse_schedule, parse_entries, parse_entry, match_entry,
  day_numbers, insert_slot, sort_slots, next_occurrence, next_within, next_on, occurrences_between,
  between_days, between_on, is_before,
}
use inno_scalping_crawling.Schedule.Between.{
  IsOccurrence, IsWithin, occurrences_between-In, occurrences_between-meet,
}
use inno_scalping_crawling.Schedule.Next.{next_occurrence-IsEarliest, next_occurrence_returns}

abbrev twice_weekly : Schedule
twice_weekly = texts (some (codes " THU 07:30") ∷ some (codes "MON 07:30") ∷ [])

abbrev half_past_seven : ℕ
half_past_seven = 27_000_000_000

abbrev two_slots : List Slot
two_slots =
    record { weekday = 0; time = half_past_seven }
    ∷ record { weekday = 3; time = half_past_seven }
    ∷ []

parsed : slots_of twice_weekly ≡ ok two_slots
unfolding slots_of parse_schedule parse_entries parse_entry match_entry day_numbers insert_slot
    sort_slots strip drop_spaces is_space lookup text_eq
parsed = refl

abbrev wednesday : Moment
wednesday = record { day = 2; time = 0 }

abbrev thursday : Moment
thursday = record { day = 3; time = half_past_seven }

abbrev next_monday : Moment
next_monday = record { day = 7; time = half_past_seven }

abbrev next_thursday : Moment
next_thursday = record { day = 10; time = half_past_seven }

next_is_monday : next_occurrence thursday twice_weekly ≡ ok next_monday
unfolding next_occurrence next_within next_on slots_of parse_schedule parse_entries parse_entry
    match_entry day_numbers insert_slot sort_slots strip drop_spaces is_space lookup text_eq
next_is_monday = refl

next_occurrence-IsEarliest_example :
    IsOccurrence two_slots next_monday
    × (is_before thursday next_monday ≡ true)
    × ((o : Moment)
        → IsOccurrence two_slots o
        → is_before thursday o ≡ true
        → is_before o next_monday ≡ false)
next_occurrence-IsEarliest_example =
    next_occurrence-IsEarliest thursday next_monday twice_weekly two_slots parsed next_is_monday

next_occurrence_returns_example :
    (next : Moment) × (next_occurrence thursday twice_weekly ≡ ok next)
next_occurrence_returns_example = next_occurrence_returns thursday twice_weekly two_slots parsed

until_monday : occurrences_between wednesday next_monday twice_weekly ≡ ok (thursday ∷ [])
unfolding occurrences_between between_days between_on slots_of parse_schedule parse_entries
    parse_entry match_entry day_numbers insert_slot sort_slots strip drop_spaces is_space lookup
    text_eq
until_monday = refl

from_monday : occurrences_between next_monday next_thursday twice_weekly ≡ ok (next_monday ∷ [])
unfolding occurrences_between between_days between_on slots_of parse_schedule parse_entries
    parse_entry match_entry day_numbers insert_slot sort_slots strip drop_spaces is_space lookup
    text_eq
from_monday = refl

until_thursday :
    occurrences_between wednesday next_thursday twice_weekly ≡ ok (thursday ∷ next_monday ∷ [])
unfolding occurrences_between between_days between_on slots_of parse_schedule parse_entries
    parse_entry match_entry day_numbers insert_slot sort_slots strip drop_spaces is_space lookup
    text_eq
until_thursday = refl

occurrences_between-In_example :
    In thursday (thursday ∷ [])
    ↔ (IsOccurrence two_slots thursday × IsWithin wednesday next_monday thursday)
occurrences_between-In_example =
    occurrences_between-In wednesday next_monday twice_weekly two_slots (thursday ∷ []) thursday
      parsed until_monday

occurrences_between-meet_example :
    ¬ (In next_monday (thursday ∷ []) × In next_monday (next_monday ∷ []))
    × (In next_monday (thursday ∷ next_monday ∷ [])
        ↔ (In next_monday (thursday ∷ []) ⊎ In next_monday (next_monday ∷ [])))
occurrences_between-meet_example =
    occurrences_between-meet wednesday next_monday next_thursday twice_weekly two_slots
      (thursday ∷ []) (next_monday ∷ []) (thursday ∷ next_monday ∷ []) parsed until_monday
      from_monday until_thursday next_monday
