-- ===== src/BriefingBuild/Sound.antt =====
-- Which candidates a briefing can and cannot have (briefing_build.py).
use mathlib.Core.Path.{subst}
use inno_scalping_crawling.Common.{
  ℕ, ◌≡◌, ◌⊎◌, inl, inr, refl, ap, Bool, true, false, not, ◌&&◌, ◌||◌, if◌then◌else◌, Option, none,
  some, List, [], ◌∷◌, ◌++◌, arith, keep, keep-In, In, In-append_cases, Text, codes, is_empty,
  text_eq, Bool-cases,
}
use inno_scalping_crawling.Publication.{
  Value, null, boolean, scalar, text, mapping, sequence, field, one_of,
}
use inno_scalping_crawling.BriefingBuild.{
  Readers, final_review_states, excluded_queue_states, queue_review_states, has_status, status_in,
  in_window, identifier,
}
use inno_scalping_crawling.BriefingBuild.Carried.{StoodIn, carry-StoodIn}
use inno_scalping_crawling.BriefingBuild.Order.{
  insert_sorted, sort_candidates, sorts_before, current_candidates, carry, Selected, old_items,
  approved_state, identifiers, selected_as, select, candidate_order,
}

not_final_in :
    (status : Option Value)
    → status_in final_review_states status ≡ false
    → status_in excluded_queue_states status ≡ false
not_final_in none h = refl
not_final_in (some null) h = refl
not_final_in (some (boolean _)) h = refl
not_final_in (some (scalar _ _ _)) h = refl
not_final_in (some (mapping _)) h = refl
not_final_in (some (sequence _)) h = refl
not_final_in (some (text s)) h =
    drop (text_eq s (codes "approved")) (text_eq s (codes "rejected"))
      (text_eq s (codes "archived")) h
  where
    drop : (a b c : Bool) → (a || (b || (c || false))) ≡ false → (b || (c || false)) ≡ false
    drop a b c h = ground arith

not_final :
    (candidate : Value)
    → has_status final_review_states candidate ≡ false
    → has_status excluded_queue_states candidate ≡ false
unfolding has_status
not_final candidate h = not_final_in (field candidate (codes "review_status")) h

both : (a b : Bool) → (not a && b) ≡ true → (a ≡ false) × (b ≡ true)
both a b h = ground arith

module _ (readers : Readers) where
  insert_sorted-In :
      (x a : Value) (l : List Value) → In x (insert_sorted readers a l) → (x ≡ a) ⊎ In x l
  unfolding insert_sorted
  insert_sorted-In x a [] (inl e) = inl e
  insert_sorted-In x a [] (inr m) = absurd m
  insert_sorted-In x a (b ∷ l) m = elim (Bool-cases (sorts_before readers b a)) [
    | inl first ↦
        elim (subst (λ t. In x (if t then b ∷ insert_sorted readers a l else a ∷ (b ∷ l))) first
          m) [
            | inl e ↦ inr (inl e)
            | inr later ↦ elim (insert_sorted-In x a l later) [
              | inl e ↦ inl e
              | inr k ↦ inr (inr k)
            ]
          ]
    | inr here ↦ subst (λ t. In x (if t then b ∷ insert_sorted readers a l else a ∷ (b ∷ l))) here m
  ]

  sort-In : (x : Value) (l : List Value) → In x (sort_candidates readers l) → In x l
  unfolding sort_candidates
  sort-In x [] m = m
  sort-In x (a ∷ l) m = elim (insert_sorted-In x a (sort_candidates readers l) m) [
    | inl e ↦ inl e
    | inr k ↦ inr (sort-In x l k)
  ]

  select-In :
      (carried_ids seen : List Text) (candidates : List Value) (s : Selected)
      → In s (select readers carried_ids candidates seen)
      → In s.candidate candidates
  unfolding select
  select-In carried_ids seen [] s m = absurd m
  select-In carried_ids seen (c ∷ candidates) s m =
      let skipped = is_empty (identifier readers c) || one_of seen (identifier readers c) in
      let rest = λ (b : Bool).
        select readers carried_ids candidates (if b then seen else identifier readers c ∷ seen) in
      elim (Bool-cases skipped) [
        | inl skip ↦ inr (
            select-In carried_ids seen candidates s (
              subst (λ b. In s (if b then rest b else selected_as readers carried_ids c ∷ rest b))
                skip m))
        | inr take ↦
            elim (subst
              (λ b. In s (if b then rest b else selected_as readers carried_ids c ∷ rest b)) take
              m) [
                | inl e ↦ inl (ap (λ (x : Selected). x.candidate) e)
                | inr later ↦
                    inr (select-In carried_ids (identifier readers c ∷ seen) candidates s later)
              ]
      ]

  from_window :
      (states : List Text) (start stop : ℕ) (candidates : List Value) (c : Value)
      → In c (
          sort_candidates readers
            (keep (has_status states) (current_candidates readers start stop candidates)))
      → (has_status states c ≡ true)
        × In c candidates
        × (has_status excluded_queue_states c ≡ false)
        × (in_window readers start stop c ≡ true)
  unfolding current_candidates
  from_window states start stop candidates c m =
      let current = current_candidates readers start stop candidates in
      let (k, stated) =
        keep-In (has_status states) c current (sort-In c (keep (has_status states) current) m) in
      let (inside, tested) =
        keep-In
          (λ candidate.
            not (has_status excluded_queue_states candidate)
            && in_window readers start stop candidate)
          c candidates k in
      let (undecided, within) =
        both (has_status excluded_queue_states c) (in_window readers start stop c) tested in
      (stated, inside, undecided, within)

  -- A rejected or archived candidate never comes into a briefing, neither out of the window nor by
  -- being carried over. What comes in is approved or waits for a decision and lies in the window of
  -- the briefing, or it has had no final decision and an earlier briefing has an item that holds it
  -- or that has its identifier.
  pub candidate_order-IsOpen :
      (start stop : ℕ) (candidates previous : List Value) (s : Selected)
      → In s (candidate_order readers start stop candidates previous)
      → (has_status excluded_queue_states s.candidate ≡ false)
        × ((In s.candidate candidates
              × (in_window readers start stop s.candidate ≡ true)
              × ((has_status approved_state s.candidate ≡ true)
                  ⊎ (has_status queue_review_states s.candidate ≡ true)))
            ⊎ (StoodIn readers candidates previous s.candidate
                × (has_status final_review_states s.candidate ≡ false)))
  unfolding candidate_order
  candidate_order-IsOpen start stop candidates previous s m =
      let carried = carry readers candidates (old_items previous) [] in
      let current = current_candidates readers start stop candidates in
      let c = s.candidate in
      let listed =
        select-In (identifiers readers carried) []
          (sort_candidates readers (keep (has_status approved_state) current)
            ++ (sort_candidates readers (keep (has_status queue_review_states) current)
                ++ sort_candidates readers carried))
          s m in
      elim (In-append_cases c (sort_candidates readers (keep (has_status approved_state) current))
        (sort_candidates readers (keep (has_status queue_review_states) current)
          ++ sort_candidates readers carried)
        listed) [
          | inl approved ↦
              let (stated, k, undecided, within) =
                from_window approved_state start stop candidates c approved in
              (undecided, inl (k, within, inl stated))
          | inr others ↦
              elim (In-append_cases c
                (sort_candidates readers (keep (has_status queue_review_states) current))
                (sort_candidates readers carried) others) [
                  | inl waiting ↦
                      let (stated, k, undecided, within) =
                        from_window queue_review_states start stop candidates c waiting in
                      (undecided, inl (k, within, inr stated))
                  | inr old ↦
                      let k = sort-In c carried old in
                      let (stood, undecided) = carry-StoodIn readers candidates previous c k in
                      (not_final c undecided, inr (stood, undecided))
                ]
        ]

  -- No identifier stands twice.
  pub AreDistinct : List Text → List Selected → Type 0
  AreDistinct seen [] = Unit
  AreDistinct seen (s ∷ order) =
      (is_empty (identifier readers s.candidate) ≡ false)
      × (one_of seen (identifier readers s.candidate) ≡ false)
      × AreDistinct (identifier readers s.candidate ∷ seen) order

  select-AreDistinct :
      (carried_ids seen : List Text) (candidates : List Value)
      → AreDistinct seen (select readers carried_ids candidates seen)
  unfolding select AreDistinct
  select-AreDistinct carried_ids seen [] = tt
  select-AreDistinct carried_ids seen (c ∷ candidates) =
      let id = identifier readers c in
      elim (Bool-cases (is_empty id || one_of seen id)) [
        | inl skip ↦ rw skip (select-AreDistinct carried_ids seen candidates)
        | inr take ↦
            let (filled, unseen) = neither_of (is_empty id) (one_of seen id) take in
            rw take (filled, unseen, select-AreDistinct carried_ids (id ∷ seen) candidates)
      ]
    where
      neither_of : (a b : Bool) → (a || b) ≡ false → (a ≡ false) × (b ≡ false)
      neither_of a b h = ground arith

  -- A briefing has no candidate twice, though a candidate can be new, waiting and carried over at
  -- once: each one in the order has an identifier, and none that stands before it.
  pub candidate_order-AreDistinct :
      (start stop : ℕ) (candidates previous : List Value)
      → AreDistinct [] (candidate_order readers start stop candidates previous)
  unfolding candidate_order
  candidate_order-AreDistinct start stop candidates previous =
      let carried = carry readers candidates (old_items previous) [] in
      let current = current_candidates readers start stop candidates in
      select-AreDistinct (identifiers readers carried) [] (
        sort_candidates readers (keep (has_status approved_state) current)
        ++ (sort_candidates readers (keep (has_status queue_review_states) current)
            ++ sort_candidates readers carried))
