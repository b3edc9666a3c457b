-- ===== src/Cursor/Latest.antt =====
-- `_success_run` of briefing_cursor.py returns the latest eligible run, or none where there is none.
use mathlib.Core.Path.{subst}
use inno_scalping_crawling.Common.{
  ℕ, ◌+◌, ◌≤◌, ◌≡◌, Option, none, some, List, [], ◌∷◌, arith, ok, In, Result-cases, inl, inr,
}
use inno_scalping_crawling.Cursor.{Run, Selected, success_from, success_run, selected_run}
use inno_scalping_crawling.Cursor.Selection.{
  IsEligible, ComesFrom, visit-ComesFrom, success_from-cons, success_from-IsSound,
  success_from-Covers,
}

module _ (scheduled : ℕ) where
  join-ComesFrom :
      (run : Run) (runs : List Run) (selected next last : Option Selected)
      → ComesFrom (run ∷ []) selected next
      → ComesFrom runs next last
      → ComesFrom (run ∷ runs) selected last
  join-ComesFrom run runs selected next none first rest = tt
  join-ComesFrom run runs selected next (some n) first (inl m) = inl (inr m)
  join-ComesFrom run runs selected next (some n) first (inr e) =
      elim (subst (ComesFrom (run ∷ []) selected) e first) [
        | inl (inl same) ↦ inl (inl same)
        | inl (inr never) ↦ absurd never
        | inr same ↦ inr same
      ]

  success_from-ComesFrom :
      (index : ℕ) (selected last : Option Selected) (runs : List Run)
      → success_from scheduled index selected runs ≡ ok last
      → ComesFrom runs selected last
  success_from-ComesFrom index selected none [] h = tt
  success_from-ComesFrom index selected (some n) [] h = unfold success_from in inr (cc h)
  success_from-ComesFrom index selected last (run ∷ runs) h =
      let (next, v, rest) = success_from-cons scheduled index selected last run runs h in
      join-ComesFrom run runs selected next last
        (visit-ComesFrom scheduled index run selected next v)
        (success_from-ComesFrom (index + 1) next last runs rest)

-- The run is in the list and eligible, and no eligible run of the list ends later; or there is no
-- eligible run.
abbrev pub IsLatest : ℕ → List Run → Option Run → Type 0
IsLatest scheduled runs none = (r : Run) (end : ℕ) → In r runs → ¬ IsEligible scheduled r end
IsLatest scheduled runs (some run) =
    In run runs
    × ((end : ℕ) × IsEligible scheduled run end
        × ((r : Run) (other : ℕ) → In r runs → IsEligible scheduled r other → other ≤ end))

IsLatest-of_selected :
    (scheduled : ℕ) (runs : List Run) (s : Option Selected)
    → success_from scheduled 0 none runs ≡ ok s
    → IsLatest scheduled runs (selected_run s)
IsLatest-of_selected scheduled runs none h =
    λ r end m e. success_from-Covers scheduled 0 none none runs r end h m e
IsLatest-of_selected scheduled runs (some s) h = (
  elim (success_from-ComesFrom scheduled 0 none (some s) runs h) [
    | inl m ↦ m
    | inr e ↦ absurd (cc e)
  ],
  (
    s.end,
    success_from-IsSound scheduled 0 none (some s) runs h tt,
    λ r other m e. success_from-Covers scheduled 0 none (some s) runs r other h m e,
  ),
)

-- Where the ends of the successful runs can be read, the run that is found is the latest of those
-- that succeeded and end no later than the scheduled time; if none is found there is none.
pub success_run-IsLatest :
    (runs : List Run) (scheduled : ℕ) (prior : Option Run)
    → success_run runs scheduled ≡ ok prior
    → IsLatest scheduled runs prior
unfolding success_run
success_run-IsLatest runs scheduled prior h =
    elim (Result-cases (success_from scheduled 0 none runs)) [
      | inl (s, e) ↦
          subst (IsLatest scheduled runs) (ground arith) (IsLatest-of_selected scheduled runs s e)
      | inr (x, e) ↦ absurd (ground arith)
    ]
