-- ===== src/Schedule/Next.antt =====
-- `next_occurrence` of schedule.py gives the earliest occurrence after a moment.
use mathlib.Core.Path.{subst}
use inno_scalping_crawling.Common.{
  ℕ, zero, suc, ◌+◌, ◌-◌, ◌%◌, ◌≤◌, ◌<◌, ◌≡◌, refl, sym, ap, ◌∙◌, inl, inr, Bool, true, false, ◌&&◌,
  Option, none, some, List, [], ◌∷◌, arith, ok, Option-cases, Bool-cases, ◌==◌, ==_iff, All, All-In,
}
use inno_scalping_crawling.Schedule.{
  Moment, Slot, Schedule, slots_of, slot_leb, is_before, occurrence_on, next_on, next_within,
  next_occurrence, or_later,
}
use inno_scalping_crawling.Schedule.Parsed.{IsSorted, IsFilled, HasWeekday, slots_of-IsValid}
use inno_scalping_crawling.Schedule.Between.{IsOccurrence, slot_on_day}

-- The earliest of the occurrences after the moment, on the day or from the day on.
abbrev IsNextOn : Moment → ℕ → List Slot → Option Moment → Type 0
IsNextOn moment day l none =
    (o : Moment) → o.day ≡ day → IsOccurrence l o → is_before moment o ≡ true → ⊥
IsNextOn moment day l (some n) =
    (n.day ≡ day)
    × IsOccurrence l n
    × (is_before moment n ≡ true)
    × ((o : Moment)
        → o.day ≡ day
        → IsOccurrence l o
        → is_before moment o ≡ true
        → is_before o n ≡ false)

abbrev is_hit : Moment → ℕ → Slot → Bool
is_hit moment day s = s.weekday == day % 7 && is_before moment (occurrence_on day s)

module _ (moment : Moment) where
  next_on-hit :
      (day : ℕ) (s : Slot) (l : List Slot)
      → is_hit moment day s ≡ true
      → next_on moment day (s ∷ l) ≡ some (occurrence_on day s)
  unfolding next_on
  next_on-hit day s l h = rw h refl

  next_on-miss :
      (day : ℕ) (s : Slot) (l : List Slot)
      → is_hit moment day s ≡ false
      → next_on moment day (s ∷ l) ≡ next_on moment day l
  unfolding next_on
  next_on-miss day s l h = rw h refl

  own_hit :
      (o : Moment)
      → is_before moment o ≡ true
      → is_hit moment o.day (record { weekday = o.day % 7; time = o.time }) ≡ true
  own_hit o h = ground arith

  hit_of_occurrence :
      (day : ℕ) (s : Slot) (o : Moment)
      → o.day ≡ day
      → ◌≡◌ {A = Slot} (record { weekday = o.day % 7; time = o.time }) s
      → is_before moment o ≡ true
      → is_hit moment day s ≡ true
  hit_of_occurrence day s o ed e h =
      subst (λ d. is_hit moment d s ≡ true) ed
        (subst (λ x. is_hit moment o.day x ≡ true) e (own_hit o h))

  -- Of two occurrences on a day the one with the earlier slot is not the later one.
  first_on_day :
      (day : ℕ) (s : Slot) (l : List Slot) (o : Moment)
      → is_hit moment day s ≡ true
      → All (λ t. slot_leb s t ≡ true) l
      → o.day ≡ day
      → IsOccurrence (s ∷ l) o
      → is_before o (occurrence_on day s) ≡ false
  first_on_day day s l o hit sorted ed (inl e) =
      let same : o.time ≡ s.time = ap (λ x. x.time) e in ground arith
  first_on_day day s l o hit sorted ed (inr h) =
      let order =
        All-In (λ t. slot_leb s t ≡ true) (record { weekday = o.day % 7; time = o.time }) l sorted
          h in
      ground (arith, order)

  -- A slot that gives no occurrence can be left out.
  skip :
      (day : ℕ) (s : Slot) (l : List Slot) (n : Option Moment)
      → is_hit moment day s ≡ false
      → IsNextOn moment day l n
      → IsNextOn moment day (s ∷ l) n
  skip day s l none miss next = λ o ed x b. elim x [
    | inl e ↦ cc (miss, hit_of_occurrence day s o ed e b)
    | inr h ↦ next o ed h b
  ]
  skip day s l (some n) miss (d, i, after, least) = (
    d,
    inr i,
    after,
    λ o ed x b. elim x [
      | inl e ↦ absurd (cc (miss, hit_of_occurrence day s o ed e b))
      | inr h ↦ least o ed h b
    ],
  )

  next_on_lem :
      (day : ℕ) (l : List Slot) → IsSorted l → IsNextOn moment day l (next_on moment day l)
  unfolding next_on
  next_on_lem day [] sorted = λ o e h b. h
  next_on_lem day (s ∷ l) sorted = elim (Bool-cases (is_hit moment day s)) [
    | inl hit ↦ subst (IsNextOn moment day (s ∷ l)) (sym (next_on-hit day s l hit)) (
      refl,
      inl (slot_on_day day s (ground arith)),
      ground arith,
      λ o ed x b. first_on_day day s l o hit sorted.0 ed x,
    )
    | inr miss ↦
        subst (IsNextOn moment day (s ∷ l)) (sym (next_on-miss day s l miss))
          (skip day s l (next_on moment day l) miss (next_on_lem day l sorted.1))
  ]

-- The same over some days from `day` on.
abbrev IsNextFrom : Moment → ℕ → ℕ → List Slot → Option Moment → Type 0
IsNextFrom moment n day l none =
    (o : Moment) → day ≤ o.day → o.day < day + n → IsOccurrence l o → is_before moment o ≡ true → ⊥
IsNextFrom moment n day l (some m) =
    (day ≤ m.day)
    × IsOccurrence l m
    × (is_before moment m ≡ true)
    × ((o : Moment)
        → day ≤ o.day
        → IsOccurrence l o
        → is_before moment o ≡ true
        → is_before o m ≡ false)

module _ (moment : Moment) (l : List Slot) where
  next_day :
      (n day : ℕ) (today later : Option Moment)
      → IsNextOn moment day l today
      → IsNextFrom moment n (suc day) l later
      → IsNextFrom moment (suc n) day l (or_later today later)
  next_day n day none none now then = λ o lo hi h b. elim (Bool-cases (o.day == day)) [
    | inl e ↦ now o ((==_iff o.day day).0 e) h b
    | inr ne ↦ then o (ground arith) (omega (arith, hi)) h b
  ]
  next_day n day none (some m) now (lo, i, after, least) = (
    omega (arith, lo),
    i,
    after,
    λ o lo' h b. elim (Bool-cases (o.day == day)) [
      | inl e ↦ absurd (now o ((==_iff o.day day).0 e) h b)
      | inr ne ↦ least o (ground arith) h b
    ],
  )
  next_day n day (some m) later (ed, i, after, least) then = (
    omega (arith, ed),
    i,
    after,
    λ o lo h b. elim (Bool-cases (o.day == day)) [
      | inl e ↦ least o ((==_iff o.day day).0 e) h b
      | inr ne ↦ ground arith
    ],
  )

  next_within_lem :
      (n day : ℕ) → IsSorted l → IsNextFrom moment n day l (next_within n moment day l)
  unfolding next_within
  next_within_lem zero day sorted = λ o lo hi h b. omega (arith, lo, hi)
  next_within_lem (suc n) day sorted =
      next_day n day (next_on moment day l) (next_within n moment (suc day) l)
        (next_on_lem moment day l sorted) (next_within_lem n (suc day) sorted)

weekday_reached : (d w : ℕ) → w ≤ 6 → w ≡ (d + (w + 7 - d % 7) % 7) % 7
weekday_reached d w h = omega arith

-- Some day of the week that follows has the weekday of a slot.
never :
    (moment : Moment) (l : List Slot)
    → IsFilled l
    → All HasWeekday l
    → IsNextFrom moment 8 moment.day l none
    → ⊥
never moment [] filled weekdays none_found = filled
never moment (s ∷ l) filled (w, _) none_found =
    let d = moment.day + 1 + (s.weekday + 7 - (moment.day + 1) % 7) % 7 in
    let o : Moment = occurrence_on d s in
    let weekday : s.weekday ≡ d % 7 = weekday_reached (moment.day + 1) s.weekday w in
    none_found o (omega arith) (omega arith) (inl (slot_on_day d s (ground (arith, weekday))))
      (ground arith)

-- The moment that `next_occurrence` returns is an occurrence of the schedule after the given one,
-- and no occurrence after the given one comes before it.
pub next_occurrence-IsEarliest :
    (after next : Moment) (schedule : Schedule) (l : List Slot)
    → slots_of schedule ≡ ok l
    → next_occurrence after schedule ≡ ok next
    → IsOccurrence l next
      × (is_before after next ≡ true)
      × ((o : Moment) → IsOccurrence l o → is_before after o ≡ true → is_before o next ≡ false)
unfolding next_occurrence
next_occurrence-IsEarliest after next schedule l slots h =
    let sorted = (slots_of-IsValid schedule l slots).sorted in
    elim (Option-cases (next_within 8 after after.day l)) [
      | inl bad ↦ absurd (ground arith)
      | inr (m, e) ↦
          let same : m ≡ next = ground arith in
          let (_, i, b, least) =
            subst (IsNextFrom after 8 after.day l) (e ∙ ap some same)
              (next_within_lem after l 8 after.day sorted) in
          (i, b, λ o h' b'. least o (ground arith) h' b')
    ]

-- Every schedule that is accepted has a next occurrence: the search over eight days finds one.
pub next_occurrence_returns :
    (after : Moment) (schedule : Schedule) (l : List Slot)
    → slots_of schedule ≡ ok l
    → (next : Moment) × (next_occurrence after schedule ≡ ok next)
unfolding next_occurrence
next_occurrence_returns after schedule l slots =
    let valid = slots_of-IsValid schedule l slots in
    elim (Option-cases (next_within 8 after after.day l)) [
      | inl bad ↦ absurd (
          never after l valid.filled valid.weekdays (
            subst (IsNextFrom after 8 after.day l) bad
              (next_within_lem after l 8 after.day valid.sorted)))
      | inr (m, e) ↦ (m, ground arith)
    ]
