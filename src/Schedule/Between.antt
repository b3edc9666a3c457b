-- ===== src/Schedule/Between.antt =====
-- `occurrences_between` of schedule.py gives the occurrences of a half-open interval.
use mathlib.Core.Path.{subst}
use inno_scalping_crawling.Common.{
  ℕ, suc, ◌+◌, ◌-◌, ◌%◌, ◌≤◌, ◌<◌, ◌≡◌, refl, sym, ap, ◌↔◌, ◌⊎◌, inl, inr, Bool, true, false, not,
  ◌&&◌, List, [], ◌∷◌, arith, ok, Bool-cases, ◌==◌, ==_iff, zero, In, In-append_left,
  In-append_right, In-append_cases,
}
use inno_scalping_crawling.Schedule.{
  Moment, Slot, Schedule, slots_of, is_before, occurrence_on, between_on, between_days,
  occurrences_between,
}

-- One of the slots gives the moment: its weekday is the day's, and its time is the time.
abbrev pub IsOccurrence : List Slot → Moment → Type 0
IsOccurrence l o = In (record { weekday = o.day % 7; time = o.time }) l

abbrev pub IsWithin : Moment → Moment → Moment → Type 0
IsWithin start end o = (is_before o start ≡ false) × (is_before o end ≡ true)

-- The slot that an occurrence of a slot names is the slot.
pub slot_on_day :
    (day : ℕ) (s : Slot)
    → (s.weekday == day % 7) ≡ true
    → ◌≡◌ {A = Slot} (record { weekday = day % 7; time = s.time }) s
slot_on_day day s h =
    let e : s.weekday ≡ day % 7 = ground arith in ap (λ d. the_slot d s.time) (sym e)
  where
    the_slot : ℕ → ℕ → Slot
    the_slot d t = record { weekday = d; time = t }

-- The slot gives an occurrence of the interval on the day.
abbrev is_hit : Moment → Moment → ℕ → Slot → Bool
is_hit start end day s =
    s.weekday == day % 7
    && (not (is_before (occurrence_on day s) start) && is_before (occurrence_on day s) end)

module _ (start end : Moment) where
  between_on-hit :
      (day : ℕ) (s : Slot) (l : List Slot)
      → is_hit start end day s ≡ true
      → between_on start end day (s ∷ l) ≡ occurrence_on day s ∷ between_on start end day l
  unfolding between_on
  between_on-hit day s l h = rw h refl

  between_on-miss :
      (day : ℕ) (s : Slot) (l : List Slot)
      → is_hit start end day s ≡ false
      → between_on start end day (s ∷ l) ≡ between_on start end day l
  unfolding between_on
  between_on-miss day s l h = rw h refl

  own_hit :
      (o : Moment)
      → IsWithin start end o
      → is_hit start end o.day (record { weekday = o.day % 7; time = o.time }) ≡ true
  own_hit o w = ground arith

  between_on_sound :
      (day : ℕ) (l : List Slot) (o : Moment)
      → In o (between_on start end day l)
      → (o.day ≡ day) × IsOccurrence l o × IsWithin start end o
  unfolding between_on
  between_on_sound day [] o h = absurd h
  between_on_sound day (s ∷ l) o h = elim (Bool-cases (is_hit start end day s)) [
    | inl hit ↦ elim (subst (In o) (between_on-hit day s l hit) h) [
      | inl e ↦
          subst (λ x. (x.day ≡ day) × IsOccurrence (s ∷ l) x × IsWithin start end x) (sym e)
            (refl, inl (slot_on_day day s (ground arith)), ground arith)
      | inr later ↦ further (between_on_sound day l o later)
    ]
    | inr miss ↦ further (between_on_sound day l o (subst (In o) (between_on-miss day s l miss) h))
  ]
    where
      further :
          (o.day ≡ day) × IsOccurrence l o × IsWithin start end o
          → (o.day ≡ day) × IsOccurrence (s ∷ l) o × IsWithin start end o
      further (d, i, w) = (d, inr i, w)

  between_on_complete :
      (l : List Slot) (o : Moment)
      → IsOccurrence l o
      → IsWithin start end o
      → In o (between_on start end o.day l)
  between_on_complete [] o h w = absurd h
  between_on_complete (s ∷ l) o (inl e) w =
      subst (In o)
        (sym
          (between_on-hit o.day s l (subst (λ x. is_hit start end o.day x ≡ true) e (own_hit o w))))
        (inl (ap (occurrence_on o.day) e))
  between_on_complete (s ∷ l) o (inr h) w = elim (Bool-cases (is_hit start end o.day s)) [
    | inl hit ↦
        subst (In o) (sym (between_on-hit o.day s l hit)) (inr (between_on_complete l o h w))
    | inr miss ↦ subst (In o) (sym (between_on-miss o.day s l miss)) (between_on_complete l o h w)
  ]

  between_days_sound :
      (n day : ℕ) (l : List Slot) (o : Moment)
      → In o (between_days n start end day l)
      → IsOccurrence l o × IsWithin start end o
  unfolding between_days
  between_days_sound zero day l o h = absurd h
  between_days_sound (suc n) day l o h =
      elim (In-append_cases o (between_on start end day l) (between_days n start end (suc day) l)
        h) [
          | inl today ↦ let (d, i, w) = between_on_sound day l o today in (i, w)
          | inr later ↦ between_days_sound n (suc day) l o later
        ]

  between_days_complete :
      (n day : ℕ) (l : List Slot) (o : Moment)
      → day ≤ o.day
      → o.day < day + n
      → IsOccurrence l o
      → IsWithin start end o
      → In o (between_days n start end day l)
  unfolding between_days
  between_days_complete zero day l o lo hi h w = absurd (omega (arith, lo, hi))
  between_days_complete (suc n) day l o lo hi h w = elim (Bool-cases (o.day == day)) [
    | inl e ↦ In-append_left o (between_on start end day l) (between_days n start end (suc day) l) (
        subst (λ d. In o (between_on start end d l)) ((==_iff o.day day).0 e)
          (between_on_complete l o h w))
    | inr ne ↦
        In-append_right o (between_on start end day l) (between_days n start end (suc day) l)
          (between_days_complete n (suc day) l o (ground arith) (ground arith) h w)
  ]

  -- The days that the loop visits hold the whole interval.
  day_bounds :
      (o : Moment)
      → IsWithin start end o
      → (start.day ≤ o.day) × (o.day < start.day + (end.day + 1 - start.day))
  day_bounds o w = (ground arith, ground arith)

-- A list that `occurrences_between` returns holds exactly the occurrences of the schedule from the
-- start on and before the end.
pub occurrences_between-In :
    (start end : Moment) (schedule : Schedule) (l : List Slot) (occurrences : List Moment)
    (o : Moment)
    → slots_of schedule ≡ ok l
    → occurrences_between start end schedule ≡ ok occurrences
    → In o occurrences ↔ (IsOccurrence l o × IsWithin start end o)
unfolding occurrences_between
occurrences_between-In start end schedule l occurrences o slots h =
    let n = end.day + 1 - start.day in
    let e : between_days n start end start.day l ≡ occurrences = ground arith in
    subst (λ x. In o x ↔ (IsOccurrence l o × IsWithin start end o)) e
      (
        between_days_sound start end n start.day l o,
        λ (i, w).
            let (lo, hi) = day_bounds start end o w in
            between_days_complete start end n start.day l o lo hi i w,
      )

earlier :
    (middle end o : Moment)
    → is_before end middle ≡ false
    → is_before o middle ≡ true
    → is_before o end ≡ true
earlier middle end o forward h = ground arith

later :
    (start middle o : Moment)
    → is_before middle start ≡ false
    → is_before o middle ≡ false
    → is_before o start ≡ false
later start middle o forward h = ground arith

-- The window of a call that returns does not end before it starts.
not_backward :
    (start end : Moment) (schedule : Schedule) (occurrences : List Moment)
    → occurrences_between start end schedule ≡ ok occurrences
    → is_before end start ≡ false
unfolding occurrences_between
not_backward start end schedule occurrences h = elim (Bool-cases (is_before end start)) [
  | inl backward ↦ absurd (ground arith)
  | inr forward ↦ forward
]

-- Two windows that meet share no occurrence, so that none counts twice, and together they hold what
-- the window over both holds.
pub occurrences_between-meet :
    (start middle end : Moment) (schedule : Schedule) (l : List Slot)
    (first second both : List Moment)
    → slots_of schedule ≡ ok l
    → occurrences_between start middle schedule ≡ ok first
    → occurrences_between middle end schedule ≡ ok second
    → occurrences_between start end schedule ≡ ok both
    → (o : Moment) → ¬ (In o first × In o second) × (In o both ↔ (In o first ⊎ In o second))
occurrences_between-meet start middle end schedule l first second both slots h1 h2 h3 o =
    let (in_first, of_first) = occurrences_between-In start middle schedule l first o slots h1 in
    let (in_second, of_second) = occurrences_between-In middle end schedule l second o slots h2 in
    let (in_both, of_both) = occurrences_between-In start end schedule l both o slots h3 in
    let forward : is_before middle start ≡ false = not_backward start middle schedule first h1 in
    let forward' : is_before end middle ≡ false = not_backward middle end schedule second h2 in
    (
      λ (a, b). apart (in_first a).1 (in_second b).1,
      (
        λ x.
            let (i, w) = in_both x in
            elim (Bool-cases (is_before o middle)) [
              | inl early ↦ inl (of_first (i, (w.0, early)))
              | inr late ↦ inr (of_second (i, (late, w.1)))
            ],
        λ x. elim x [
          | inl a ↦ let (i, w) = in_first a in of_both (i, (w.0, earlier middle end o forward' w.1))
          | inr b ↦ let (i, w) = in_second b in of_both (i, (later start middle o forward w.0, w.1))
        ],
      ),
    )
  where
    apart : IsWithin start middle o → IsWithin middle end o → ⊥
    apart a b = ground arith
