-- ===== src/StateMachine/Records.antt =====
-- `PipelineStateRecord` of state_machine.py: the state axis and the retry axis move independently.
use inno_scalping_crawling.Common.{◌≡◌, true, arith, ok, inl, inr, Result-cases, Bool-cases}
use inno_scalping_crawling.StateMachine.{
  PipelineStateRecord, is_listed, StateRef, state_value, transition_to, with_retry, RetryMetadata,
}

-- A transition that succeeds is a listed one to the target that was named, and keeps the retry
-- metadata, also those that `with_retry` has set just before.
pub transition_to_lem :
    (r r' : PipelineStateRecord) (retry : RetryMetadata) (target : StateRef)
    → transition_to (with_retry r retry) target ≡ ok r'
    → (state_value target ≡ ok r'.state) × (is_listed r.state r'.state ≡ true) × (r'.retry ≡ retry)
unfolding transition_to with_retry
transition_to_lem r r' retry target h = elim (Result-cases (state_value target)) [
  | inl (t, e) ↦ elim (Bool-cases (is_listed r.state t)) [
    | inl listed ↦ ground arith
    | inr missing ↦ ground arith
  ]
  | inr (x, e) ↦ ground arith
]
