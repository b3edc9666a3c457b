-- ===== src/Review/Examples.antt =====
-- Decisions and amendments on a small store of review/service.py.
use inno_scalping_crawling.Common.{
  ◌≡◌, refl, false, String, Option, Text, some, none, List, [], ◌∷◌, ok, succeeds, codes, strip,
  drop_spaces, is_space, lower, is_filled, text_eq, lookup, insert, ℕ, inl,
}
use inno_scalping_crawling.Routing.{entry_logic}
use inno_scalping_crawling.StateMachine.{
  approved, enum, value, state_value, find_state, transition, is_listed,
}
use inno_scalping_crawling.Review.{
  StrategyCandidate, ReviewRow, Store, null, mapping, entries, core, record_decision,
  BriefingDecision, record_briefing_decision, is_publication_decision, is_decidable, amend_field,
  Amendment,
}
use inno_scalping_crawling.Review.Final.{record_briefing_decision-final, candidate_decided, no_more}

abbrev candidate_with : String → StrategyCandidate ℕ
candidate_with status = record {
  review_status = status;
  field_value = λ f. 0;
  metadata_json = null;
}

abbrev store_with : String → String → List ReviewRow → Store ℕ
store_with status briefing reviews = record {
  candidates = (codes "c1", candidate_with status) ∷ (codes "c2", candidate_with "validated") ∷ [];
  briefings = (codes "b1", some (codes briefing)) ∷ [];
  reviews = reviews;
}

abbrev waiting : Store ℕ
waiting = store_with "needs_review" "pending_approval" []

abbrev review : ReviewRow
review = record {
  strategy_candidate_id = codes "c1";
  reviewer_id = codes "kim";
  decision = "approved";
  comment = none;
}

abbrev decided : Store ℕ
decided = store_with "approved" "pending_approval" (review ∷ [])

other_id : text_eq (codes "c1") (codes "c2") ≡ false
unfolding text_eq
other_id = refl

abbrev made : BriefingDecision
made = record {
  briefing_id = codes "b1";
  reviewer_id = codes "kim";
  decision = codes "approved";
  previous_publication_status = codes "pending_approval";
  comment = none;
  decided_at = codes "2026-01-05";
}

abbrev published : Store ℕ
published = store_with "needs_review" "approved" []

publish :
    record_briefing_decision
      (codes "2026-01-05")
      waiting
      (codes "b1")
      (some (codes " kim"))
      (some (codes "Approved "))
      none
    ≡ ok (made, published)
unfolding record_briefing_decision is_publication_decision is_decidable is_filled strip drop_spaces
    is_space lower lookup insert text_eq
publish = refl

abbrev moved_on : Store ℕ
moved_on = store_with "approved" "approved" (review ∷ [])

decide_later :
    record_decision published (codes "c1") (some (codes "kim")) (enum approved) none
    ≡ ok (review, moved_on)
unfolding record_decision transition state_value find_state value is_listed is_filled strip
    drop_spaces is_space lookup insert text_eq
decide_later = refl

record_briefing_decision-final_example :
    (lookup (codes "b1") moved_on.briefings ≡ some (some (codes "approved")))
    × ((later : Text) (later_reviewer later_decision later_comment : Option Text)
        → succeeds (
            record_briefing_decision later moved_on
              (codes "b1")
              later_reviewer
              later_decision
              later_comment)
          ≡ false)
record_briefing_decision-final_example =
    record_briefing_decision-final (codes "2026-01-05") waiting published moved_on (codes "b1")
      (some (codes " kim")) (some (codes "Approved ")) none made publish
      (candidate_decided published moved_on moved_on (codes "c1") (some (codes "kim")) none
        (enum approved) review decide_later (no_more moved_on))

abbrev amendment : Amendment ℕ
amendment = record {
  amended_at = codes "2026-01-05";
  reviewer_id = codes "kim";
  field_name = entry_logic;
  previous_value = 0;
  proposed_value = 7;
  reason = codes "typo";
}

abbrev amended : Store ℕ
amended = record {
  candidates =
      (
        codes "c1",
        record (candidate_with "needs_review") {
          metadata_json = mapping [] (entries (inl amendment ∷ []));
        },
      )
      ∷ (codes "c2", candidate_with "validated")
      ∷ [];
  briefings = waiting.briefings;
  reviews = [];
}

amend :
    amend_field
      (codes "2026-01-05")
      waiting
      (codes "c1")
      (some (codes "kim"))
      (core entry_logic)
      7
      (codes "typo")
    ≡ ok (amendment, amended)
unfolding amend_field is_filled strip drop_spaces is_space lookup insert text_eq
amend = refl
