-- ===== src/Schedule/Parsed.antt =====
-- The slots that schedule.py works with are sorted and not empty, with weekdays from 0 to 6.
use mathlib.Core.Path.{subst}
use inno_scalping_crawling.Common.{
  ℕ, ◌≤◌, ◌≡◌, inl, inr, true, false, Option, none, some, List, [], ◌∷◌, ◌++◌, arith, ok,
  Result-cases, Option-cases, Bool-cases, ltb, any, All, Text, text_eq, strip, lookup,
}
use inno_scalping_crawling.Schedule.{
  Slot, Schedule, one_text, texts, slots, slot_leb, slot_eq, insert_slot, sort_slots, match_entry,
  parse_entry, parse_entries, parse_schedule, has_duplicates, slots_of, day_numbers,
}

abbrev pub IsSorted : List Slot → Type 0
IsSorted [] = Unit
IsSorted (s ∷ l) = All (λ t. slot_leb s t ≡ true) l × IsSorted l

abbrev pub IsFilled : List Slot → Type 0
IsFilled [] = ⊥
IsFilled (_ ∷ _) = Unit

abbrev pub HasWeekday : Slot → Type 0
HasWeekday s = s.weekday ≤ 6

pub record IsValid (l : List Slot) : Type 0 where
  pub sorted : IsSorted l
  pub filled : IsFilled l
  pub weekdays : All HasWeekday l

All-insert :
    (P : Slot → Type 0) (s : Slot) (l : List Slot) → P s → All P l → All P (insert_slot s l)
unfolding insert_slot
All-insert P s [] p all = (p, tt)
All-insert P s (t ∷ l) p (q, all) = elim (Bool-cases (slot_leb s t)) [
  | inl le ↦ rw le (p, (q, all))
  | inr gt ↦ rw gt (q, All-insert P s l p all)
]

slot_leb_trans : (s t u : Slot) → slot_leb s t ≡ true → slot_leb t u ≡ true → slot_leb s u ≡ true
slot_leb_trans s t u h k = ground arith

slot_leb-total : (s t : Slot) → slot_leb s t ≡ false → slot_leb t s ≡ true
slot_leb-total s t h = ground arith

All-slot_leb :
    (s t : Slot) (l : List Slot)
    → slot_leb s t ≡ true
    → All (λ u. slot_leb t u ≡ true) l
    → All (λ u. slot_leb s u ≡ true) l
All-slot_leb s t [] h all = tt
All-slot_leb s t (u ∷ l) h (k, all) = (slot_leb_trans s t u h k, All-slot_leb s t l h all)

insert-IsSorted : (s : Slot) (l : List Slot) → IsSorted l → IsSorted (insert_slot s l)
unfolding insert_slot
insert-IsSorted s [] sorted = (tt, tt)
insert-IsSorted s (t ∷ l) (first, sorted) = elim (Bool-cases (slot_leb s t)) [
  | inl le ↦ rw le ((le, All-slot_leb s t l le first), (first, sorted))
  | inr gt ↦ rw gt (
    All-insert (λ u. slot_leb t u ≡ true) s l (slot_leb-total s t gt) first,
    insert-IsSorted s l sorted,
  )
]

sort-IsSorted : (l : List Slot) → IsSorted (sort_slots l)
unfolding sort_slots
sort-IsSorted [] = tt
sort-IsSorted (s ∷ l) = insert-IsSorted s (sort_slots l) (sort-IsSorted l)

All-sort : (P : Slot → Type 0) (l : List Slot) → All P l → All P (sort_slots l)
unfolding sort_slots
All-sort P [] all = tt
All-sort P (s ∷ l) (p, all) = All-insert P s (sort_slots l) p (All-sort P l all)

insert-IsFilled : (s : Slot) (l : List Slot) → IsFilled (insert_slot s l)
unfolding insert_slot
insert-IsFilled s [] = tt
insert-IsFilled s (t ∷ l) = elim (Bool-cases (slot_leb s t)) [
  | inl le ↦ rw le tt
  | inr gt ↦ rw gt tt
]

sort-IsFilled : (l : List Slot) → IsFilled l → IsFilled (sort_slots l)
unfolding sort_slots
sort-IsFilled [] h = h
sort-IsFilled (s ∷ l) h = insert-IsFilled s (sort_slots l)

sort-IsValid : (l : List Slot) → IsFilled l → All HasWeekday l → IsValid (sort_slots l)
sort-IsValid l filled weekdays = record {
  sorted = sort-IsSorted l;
  filled = sort-IsFilled l filled;
  weekdays = All-sort HasWeekday l weekdays;
}

lookup_bound :
    (t : Text) (d : ℕ) (table : List (Text × ℕ))
    → All (λ row. row.1 ≤ 6) table
    → lookup t table ≡ some d
    → d ≤ 6
unfolding lookup
lookup_bound t d [] all h = ground arith
lookup_bound t d ((name, e) ∷ table) (le, all) h = elim (Bool-cases (text_eq name t)) [
  | inl same ↦ ground arith
  | inr other ↦ lookup_bound t d table all (ground arith)
]

day_number_bound : (t : Text) (d : ℕ) → lookup t day_numbers ≡ some d → d ≤ 6
unfolding day_numbers
day_number_bound t d h =
    lookup_bound t d day_numbers
      (
        omega arith,
        (
          omega arith,
          (omega arith, (omega arith, (omega arith, (omega arith, (omega arith, tt))))),
        ),
      )
      h

match_entry-HasWeekday : (t : Text) (s : Slot) → match_entry t ≡ some s → HasWeekday s
unfolding match_entry
match_entry-HasWeekday (a ∷ b ∷ c ∷ space ∷ h ∷ i ∷ colon ∷ m ∷ n ∷ []) s e =
    elim (Option-cases (lookup (a ∷ b ∷ c ∷ []) day_numbers)) [
      | inl bad ↦ absurd (ground arith)
      | inr (d, ed) ↦ ground (arith, day_number_bound (a ∷ b ∷ c ∷ []) d ed)
    ]
match_entry-HasWeekday _ s e = ground arith

parse_entry-HasWeekday : (entry : Option Text) (s : Slot) → parse_entry entry ≡ ok s → HasWeekday s
unfolding parse_entry
parse_entry-HasWeekday none s h = ground arith
parse_entry-HasWeekday (some entry) s h = elim (Option-cases (match_entry (strip entry))) [
  | inl bad ↦ absurd (ground arith)
  | inr (t, e) ↦ ground (arith, match_entry-HasWeekday (strip entry) t e)
]

All-append : (l k : List Slot) → All HasWeekday l → All HasWeekday k → All HasWeekday (l ++ k)
All-append [] k all more = more
All-append (s ∷ l) k (w, all) more = (w, All-append l k all more)

append-IsFilled : (l : List Slot) (s : Slot) → IsFilled (l ++ (s ∷ []))
append-IsFilled [] s = tt
append-IsFilled (_ ∷ _) s = tt

-- One turn of the loop.
parse_entries_step :
    (entry : Option Text) (entries : List (Option Text)) (parsed l : List Slot)
    → parse_entries (entry ∷ entries) parsed ≡ ok l
    → (s : Slot) × HasWeekday s × (parse_entries entries (parsed ++ (s ∷ [])) ≡ ok l)
unfolding parse_entries
parse_entries_step entry entries parsed l h = elim (Result-cases (parse_entry entry)) [
  | inr (x, bad) ↦ absurd (ground arith)
  | inl (s, e) ↦ elim (Bool-cases (any (slot_eq s) parsed)) [
    | inl twice ↦ absurd (ground arith)
    | inr new ↦ (s, parse_entry-HasWeekday entry s e, ground arith)
  ]
]

parse_entries_lem :
    (entries : List (Option Text)) (parsed l : List Slot)
    → parse_entries entries parsed ≡ ok l
    → IsFilled parsed
    → All HasWeekday parsed
    → IsFilled l × All HasWeekday l
unfolding parse_entries
parse_entries_lem [] parsed l h filled all =
    let same : parsed ≡ l = ground arith in
    subst (λ x. IsFilled x × All HasWeekday x) same (filled, all)
parse_entries_lem (entry ∷ entries) parsed l h filled all =
    let (s, w, rest) = parse_entries_step entry entries parsed l h in
    parse_entries_lem entries (parsed ++ (s ∷ [])) l rest (append-IsFilled parsed s)
      (All-append parsed (s ∷ []) all (w, tt))

parse_schedule-IsValid :
    (entries : List (Option Text)) (l : List Slot) → parse_schedule entries ≡ ok l → IsValid l
unfolding parse_schedule
parse_schedule-IsValid [] l h = absurd (ground arith)
parse_schedule-IsValid (entry ∷ entries) l h =
    elim (Result-cases (parse_entries (entry ∷ entries) [])) [
      | inr (x, bad) ↦ absurd (ground arith)
      | inl (parsed, e) ↦
          let (s, w, rest) = parse_entries_step entry entries [] parsed e in
          let (filled, all) = parse_entries_lem entries (s ∷ []) parsed rest tt (w, tt) in
          let same : sort_slots parsed ≡ l = ground arith in
          subst IsValid same (sort-IsValid parsed filled all)
    ]

in_range : (l : List Slot) → any (λ t. ltb 6 t.weekday) l ≡ false → All HasWeekday l
in_range [] h = tt
in_range (s ∷ l) h = elim (Bool-cases (ltb 6 s.weekday)) [
  | inl high ↦ absurd (ground arith)
  | inr low ↦ (ground arith, in_range l (ground arith))
]

-- The slots of a schedule that is accepted are sorted and at least one, with weekdays up to 6.
pub slots_of-IsValid : (schedule : Schedule) (l : List Slot) → slots_of schedule ≡ ok l → IsValid l
unfolding slots_of
slots_of-IsValid (one_text s) l h = parse_schedule-IsValid (some s ∷ []) l h
slots_of-IsValid (texts entries) l h = parse_schedule-IsValid entries l h
slots_of-IsValid (slots s given) l h = elim (Bool-cases (any (λ t. ltb 6 t.weekday) (s ∷ given))) [
  | inl high ↦ absurd (ground arith)
  | inr low ↦ elim (Bool-cases (has_duplicates (s ∷ given))) [
    | inl twice ↦ absurd (ground arith)
    | inr new ↦
        let same : sort_slots (s ∷ given) ≡ l = ground arith in
        subst IsValid same (sort-IsValid (s ∷ given) tt (in_range (s ∷ given) low))
  ]
]
