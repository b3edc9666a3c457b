-- ===== src/StateMachine/Examples.antt =====
-- Concrete runs through the states of state_machine.py.
use inno_scalping_crawling.Common.{◌≡◌, refl, true, false, some, none, List, [], ◌∷◌, ok}
use inno_scalping_crawling.StateMachine.{
  PipelineState, PipelineStateRecord, RetryMetadata, approved, extracted, validated, needs_review,
  rejected, value, is_listed, in_terminal_states, text, state_value, find_state, transition,
  transition_to, with_retry,
}
use inno_scalping_crawling.StateMachine.Paths.{
  transitions, approval_path, transitions-approval_path,
}

abbrev to_approval : List PipelineState
to_approval = validated ∷ needs_review ∷ approved ∷ []

run_to_approval : transitions extracted to_approval ≡ ok approved
unfolding transitions transition state_value is_listed
run_to_approval = refl

rejected_is_terminal : in_terminal_states rejected ≡ true
unfolding in_terminal_states
rejected_is_terminal = refl

transitions-approval_path_example : approval_path extracted ≡ some to_approval
transitions-approval_path_example = transitions-approval_path extracted to_approval run_to_approval

abbrev no_retry : RetryMetadata
no_retry = record {
  error_class = none;
  retry_count = 0;
  next_retry_at = none;
  last_error_at = none;
  terminal_error = false;
}

abbrev one_retry : RetryMetadata
one_retry = record {
  error_class = some "timeout";
  retry_count = 1;
  next_retry_at = some 60;
  last_error_at = some 30;
  terminal_error = false;
}

abbrev extracted_record : PipelineStateRecord
extracted_record = record { state = extracted; retry = no_retry }

abbrev validated_record : PipelineStateRecord
validated_record = record { state = validated; retry = one_retry }

moved :
    transition_to (with_retry extracted_record one_retry) (text "validated") ≡ ok validated_record
unfolding transition_to with_retry transition state_value find_state value is_listed
moved = refl
