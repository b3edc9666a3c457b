-- ===== src/BriefingBuild/Examples.antt =====
-- A briefing of one approved candidate and one that is carried over (briefing_build.py).
use inno_scalping_crawling.Common.{
  ◌≡◌, ◌⊎◌, inl, inr, refl, true, false, none, some, [], ◌∷◌, In, codes, text_eq, text_lt,
}
use inno_scalping_crawling.Publication.{
  Value, date_time, scalar, text, mapping, sequence, end, entry, field, get, values,
}
use inno_scalping_crawling.BriefingGate.DataWindow.{as_datetime}
use inno_scalping_crawling.BriefingBuild.{
  Readers, has_status, in_window, identifier, time_of, first_time, evidence_time,
  candidate_timestamp, score_of, excluded_queue_states, queue_review_states, final_review_states,
}
use inno_scalping_crawling.BriefingBuild.Order.{
  Selected, is_pending_carried, candidate_order, current_candidates, sort_candidates, insert_sorted,
  sorts_before, carry, carry_one, old_items, old_candidate, find_candidate, select, approved_state,
}
use inno_scalping_crawling.BriefingBuild.Carried.{StoodIn}
use inno_scalping_crawling.BriefingBuild.Sound.{
  candidate_order-IsOpen, candidate_order-AreDistinct, AreDistinct,
}

abbrev readers : Readers
readers = record { fromisoformat = λ s. none; repr = λ v. []; float = λ v. none }

abbrev approved : Value
approved = mapping (
    entry (codes "candidate_id") (text (codes "c1")) (
      entry (codes "review_status") (text (codes "approved"))
        (entry (codes "created_at") (scalar (codes "t5") true (some (date_time 5))) end)))

abbrev waiting : Value
waiting = mapping (
    entry (codes "candidate_id") (text (codes "c2"))
      (entry (codes "created_at") (scalar (codes "t1") true (some (date_time 1))) end))

abbrev earlier : Value
earlier = mapping (
    entry (codes "items")
      (sequence (entry [] (mapping (entry (codes "strategy_candidate") waiting end)) end)) end)

abbrev carried : Selected
carried = record { candidate = waiting; carried_over = true; reason = is_pending_carried }

-- The second candidate was created before the window.
comes_from_earlier :
    In carried (candidate_order readers 3 9 (approved ∷ waiting ∷ []) (earlier ∷ []))
unfolding candidate_order current_candidates sort_candidates insert_sorted sorts_before carry
    carry_one old_items old_candidate find_candidate select has_status in_window identifier time_of
    first_time evidence_time candidate_timestamp score_of as_datetime field get values text_eq
    text_lt
comes_from_earlier = inr (inl refl)

candidate_order-IsOpen_example :
    (has_status excluded_queue_states waiting ≡ false)
    × ((In waiting (approved ∷ waiting ∷ [])
          × (in_window readers 3 9 waiting ≡ true)
          × ((has_status approved_state waiting ≡ true)
              ⊎ (has_status queue_review_states waiting ≡ true)))
        ⊎ (StoodIn readers (approved ∷ waiting ∷ []) (earlier ∷ []) waiting
            × (has_status final_review_states waiting ≡ false)))
candidate_order-IsOpen_example =
    candidate_order-IsOpen readers 3 9 (approved ∷ waiting ∷ []) (earlier ∷ []) carried
      comes_from_earlier

candidate_order-AreDistinct_example :
    AreDistinct readers [] (candidate_order readers 3 9 (approved ∷ waiting ∷ []) (earlier ∷ []))
candidate_order-AreDistinct_example =
    candidate_order-AreDistinct readers 3 9 (approved ∷ waiting ∷ []) (earlier ∷ [])
