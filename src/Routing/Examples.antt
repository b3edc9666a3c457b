-- ===== src/Routing/Examples.antt =====
-- One candidate through routing.py.
use inno_scalping_crawling.Common.{
  ◌≡◌, ◌≢◌, ◌↔◌, refl, some, none, [], ok, codes, strip, drop_spaces, is_space, text_eq,
}
use inno_scalping_crawling.Common.Int.{ℤ, pos, ◌+ℤ◌, ◌-ℤ◌}
use inno_scalping_crawling.StateMachine.{
  rejected, needs_review, validated, value, state_value, find_state, is_listed, transition,
}
use inno_scalping_crawling.Routing.{
  missing, null, finite, Candidate, FieldStatus, DocumentVersion, Call, RoutingResult,
  route_candidate, number, unless_none, selected_score, selected_confidence, conflicting_fields,
  status_is_conflicting, is_conflicting, casefold, reasons_for, set_state, state_of,
}
use inno_scalping_crawling.Routing.Decision.{IsClear, route_candidate-decision}

abbrev supported : FieldStatus
supported = record { direct = some (codes "supported"); mapped = none }

abbrev candidate : Candidate
candidate = record {
  status_of = λ f. supported;
  value_score = finite (pos 41_000);
  extraction_confidence = finite (pos 900);
  review_status = none;
}

abbrev version : DocumentVersion
version = record { processing_status = some "validated"; state = none; status = none }

abbrev call : Call
call = record {
  candidate_score_threshold = null;
  extraction_confidence_min = null;
  threshold_setting = finite (pos 60_000);
  confidence_min_setting = finite (pos 700);
  value_score = null;
  score = null;
  extraction_confidence = null;
  source_value_score = missing;
  source_score = missing;
  source_confidence = missing;
}

abbrev routed : RoutingResult
routed = record {
  candidate = record candidate { review_status = some rejected };
  document_version = record version { processing_status = some "rejected" };
  processing_status = rejected;
  reasons = [];
  conflicting_fields = [];
  value_score = some (pos 41_000);
  extraction_confidence = some (pos 900);
}

route : route_candidate call candidate version ≡ ok routed
unfolding route_candidate number selected_score selected_confidence conflicting_fields
    status_is_conflicting is_conflicting casefold reasons_for set_state state_of transition
    state_value find_state value is_listed strip drop_spaces is_space text_eq ◌+ℤ◌ ◌-ℤ◌
route = refl

threshold_known :
    number (unless_none call.candidate_score_threshold call.threshold_setting) ≡ some (pos 60_000)
unfolding number
threshold_known = refl

minimum_known :
    number (unless_none call.extraction_confidence_min call.confidence_min_setting) ≡ some (pos 700)
unfolding number
minimum_known = refl

is_validated : state_of version ≡ some (value validated)
unfolding state_of value
is_validated = refl

route_candidate-decision_example :
    (threshold : ℤ) × ((minimum : ℤ) × (number
          (unless_none call.candidate_score_threshold call.threshold_setting)
        ≡ some threshold)
      × (number (unless_none call.extraction_confidence_min call.confidence_min_setting)
          ≡ some minimum)
      × ((routed.processing_status ≡ rejected)
          ↔ IsClear threshold minimum
              (number (selected_score call candidate))
              (number (selected_confidence call candidate))
              (conflicting_fields candidate))
      × ((routed.processing_status ≡ needs_review) ↔ (routed.reasons ≢ [])))
route_candidate-decision_example = route_candidate-decision call candidate version routed route
