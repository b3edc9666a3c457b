-- ===== src/Cursor/Selection.antt =====
-- `_success_run` of briefing_cursor.py finds the latest eligible execution.
use mathlib.Core.Path.{subst}
use inno_scalping_crawling.Common.{
  ℕ, ◌+◌, ◌≤◌, ◌≡◌, refl, sym, ◌⊎◌, true, Option, none, some, List, [], ◌∷◌, arith, ok, In,
  Result-cases, Bool-cases, inl, inr, ltb,
}
use inno_scalping_crawling.Cursor.{
  Run, Selected, is_success, status_from, end_value, as_datetime?, visit, success_from, prefer,
  is_later,
}

-- The run succeeded, and its end is `end`, which is not after the scheduled time.
pub record IsEligible (scheduled : ℕ) (run : Run) (end : ℕ) : Type 0 where
  pub success : is_success (status_from run.is_mapping run.run_status run.status) ≡ true
  pub at_end : as_datetime? (end_value run) ≡ ok (some end)
  pub in_time : end ≤ scheduled

-- What is selected comes from an eligible run.
abbrev pub IsSound : ℕ → Option Selected → Type 0
IsSound scheduled none = Unit
IsSound scheduled (some s) = IsEligible scheduled s.run s.end

-- No run that is eligible ends later than what is selected.
abbrev pub Covers : ℕ → Option Selected → Type 0
Covers end none = ⊥
Covers end (some s) = end ≤ s.end

-- Where a selection comes from: a run of the list, or the selection at the start.
abbrev pub ComesFrom : List Run → Option Selected → Option Selected → Type 0
ComesFrom runs start none = Unit
ComesFrom runs start (some s) = In s.run runs ⊎ (start ≡ some s)

module _ (scheduled index : ℕ) (run : Run) where
  abbrev candidate : ℕ → Selected
  candidate end = record { end = end; index = index; run = run }

  -- A round passes a run over that is not eligible, and lets an eligible one compete.
  visit_cases :
      (selected next : Option Selected)
      → visit scheduled index run selected ≡ ok next
      → ((next ≡ selected) × ((end : ℕ) → ¬ IsEligible scheduled run end))
        ⊎ ((end : ℕ) × IsEligible scheduled run end × (next ≡ prefer (candidate end) selected))
  unfolding visit
  visit_cases selected next h =
      elim (Bool-cases (is_success (status_from run.is_mapping run.run_status run.status))) [
        | inr failed ↦ inl (ground arith, λ end e. ground (arith, e.success))
        | inl success ↦ elim (Result-cases (as_datetime? (end_value run))) [
          | inr (x, e) ↦ absurd (ground arith)
          | inl (none, e) ↦ inl (ground arith, λ end q. ground (arith, q.at_end))
          | inl (some end, e) ↦ elim (Bool-cases (ltb scheduled end)) [
            | inl late ↦ inl (ground arith, λ end' q. ground (arith, q.at_end, q.in_time))
            | inr early ↦ inr (
              end,
              record { success = success; at_end = e; in_time = ground arith },
              ground arith,
            )
          ]
        ]
      ]

  prefer-IsSound :
      (end : ℕ) (selected : Option Selected)
      → IsEligible scheduled run end
      → IsSound scheduled selected
      → IsSound scheduled (prefer (candidate end) selected)
  unfolding prefer
  prefer-IsSound end none e s = e
  prefer-IsSound end (some m) e s = elim (Bool-cases (is_later (candidate end) m)) [
    | inl later ↦ rw later e
    | inr not_later ↦ rw not_later s
  ]

  prefer-Covers :
      (end other : ℕ) (selected : Option Selected)
      → (other ≤ end) ⊎ Covers other selected
      → Covers other (prefer (candidate end) selected)
  unfolding prefer
  prefer-Covers end other none h = ground arith
  prefer-Covers end other (some m) h = ground arith

  prefer-ComesFrom :
      (end : ℕ) (runs : List Run) (selected : Option Selected)
      → In run runs
      → ComesFrom runs selected (prefer (candidate end) selected)
  unfolding prefer
  prefer-ComesFrom end runs none h = inl h
  prefer-ComesFrom end runs (some m) h = elim (Bool-cases (is_later (candidate end) m)) [
    | inl later ↦ rw later (inl h)
    | inr not_later ↦ rw not_later (inr refl)
  ]

  visit-IsSound :
      (selected next : Option Selected)
      → visit scheduled index run selected ≡ ok next
      → IsSound scheduled selected
      → IsSound scheduled next
  visit-IsSound selected next h s = elim (visit_cases selected next h) [
    | inl (same, _) ↦ rw same s
    | inr (end, e, n) ↦ rw n (prefer-IsSound end selected e s)
  ]

  visit-Covers_old :
      (selected next : Option Selected) (other : ℕ)
      → visit scheduled index run selected ≡ ok next
      → Covers other selected
      → Covers other next
  visit-Covers_old selected next other h s = elim (visit_cases selected next h) [
    | inl (same, _) ↦ rw same s
    | inr (end, e, n) ↦ rw n (prefer-Covers end other selected (inr s))
  ]

  visit-Covers_new :
      (selected next : Option Selected) (other : ℕ)
      → visit scheduled index run selected ≡ ok next
      → IsEligible scheduled run other
      → Covers other next
  visit-Covers_new selected next other h q = elim (visit_cases selected next h) [
    | inl (_, passed) ↦ absurd (passed other q)
    | inr (end, e, n) ↦
        rw n (prefer-Covers end other selected (inl (ground (arith, e.at_end, q.at_end))))
  ]

  pub visit-ComesFrom :
      (selected next : Option Selected)
      → visit scheduled index run selected ≡ ok next
      → ComesFrom (run ∷ []) selected next
  visit-ComesFrom selected none h = tt
  visit-ComesFrom selected next h = elim (visit_cases selected next h) [
    | inl (same, _) ↦ subst (ComesFrom (run ∷ []) selected) (sym same) (self selected)
    | inr (end, e, p) ↦
        subst (ComesFrom (run ∷ []) selected) (sym p)
          (prefer-ComesFrom end (run ∷ []) selected (inl refl))
  ]
    where
      self : (s : Option Selected) → ComesFrom (run ∷ []) s s
      self none = tt
      self (some n) = inr refl

module _ (scheduled : ℕ) where
  pub success_from-cons :
      (index : ℕ) (selected last : Option Selected) (run : Run) (runs : List Run)
      → success_from scheduled index selected (run ∷ runs) ≡ ok last
      → (next : Option Selected) × (visit scheduled index run selected ≡ ok next)
        × (success_from scheduled (index + 1) next runs ≡ ok last)
  unfolding success_from
  success_from-cons index selected last run runs h =
      elim (Result-cases (visit scheduled index run selected)) [
        | inl (next, e) ↦ (next, e, rw e at h)
        | inr (x, e) ↦ absurd (ground arith)
      ]

  pub success_from-IsSound :
      (index : ℕ) (selected last : Option Selected) (runs : List Run)
      → success_from scheduled index selected runs ≡ ok last
      → IsSound scheduled selected
      → IsSound scheduled last
  success_from-IsSound index selected last [] h s =
      unfold success_from in subst (IsSound scheduled) (cc h) s
  success_from-IsSound index selected last (run ∷ runs) h s =
      let (next, v, rest) = success_from-cons index selected last run runs h in
      success_from-IsSound (index + 1) next last runs rest
        (visit-IsSound scheduled index run selected next v s)

  success_from-Covers_old :
      (index : ℕ) (selected last : Option Selected) (runs : List Run) (other : ℕ)
      → success_from scheduled index selected runs ≡ ok last
      → Covers other selected
      → Covers other last
  success_from-Covers_old index selected last [] other h s =
      unfold success_from in subst (Covers other) (cc h) s
  success_from-Covers_old index selected last (run ∷ runs) other h s =
      let (next, v, rest) = success_from-cons index selected last run runs h in
      success_from-Covers_old (index + 1) next last runs other rest
        (visit-Covers_old scheduled index run selected next other v s)

  pub success_from-Covers :
      (index : ℕ) (selected last : Option Selected) (runs : List Run) (r : Run) (other : ℕ)
      → success_from scheduled index selected runs ≡ ok last
      → In r runs
      → IsEligible scheduled r other
      → Covers other last
  success_from-Covers index selected last [] r other h m e = absurd m
  success_from-Covers index selected last (run ∷ runs) r other h m e =
      let (next, v, rest) = success_from-cons index selected last run runs h in
      elim m [
        | inl same ↦ success_from-Covers_old (index + 1) next last runs other rest (
            visit-Covers_new scheduled index run selected next other v
              (subst (λ x. IsEligible scheduled x other) same e))
        | inr later ↦ success_from-Covers (index + 1) next last runs r other rest later e
      ]
