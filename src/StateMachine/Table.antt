-- ===== src/StateMachine/Table.antt =====
-- The transitions of state_machine.py against its set of terminal states.
use inno_scalping_crawling.Common.{
  ℕ, ◌<◌, ◌≡◌, ◌↔◌, true, false, arith, succeeds, inl, inr, Result-cases, Bool-cases,
}
use inno_scalping_crawling.StateMachine.{
  PipelineState, discovered, collected, normalized, deduplicated, classified, extracted, validated,
  needs_review, approved, is_listed, in_terminal_states, StateRef, state_value, transition,
  can_transition,
}

-- A state with no way on is in `TERMINAL_STATES`, and every other has a way on.
unfoldable pub next_state : PipelineState → PipelineState
next_state discovered = collected
next_state collected = normalized
next_state normalized = deduplicated
next_state deduplicated = classified
next_state classified = extracted
next_state extracted = validated
next_state validated = needs_review
next_state needs_review = approved
next_state s = s

pub is_listed-terminal : (s t : PipelineState) → in_terminal_states s ≡ true → is_listed s t ≡ false
unfolding is_listed in_terminal_states
is_listed-terminal s t h = ground arith

pub is_listed-next_state :
    (s : PipelineState) → in_terminal_states s ≡ false → is_listed s (next_state s) ≡ true
unfolding is_listed in_terminal_states next_state
is_listed-next_state s h = ground arith

-- The set of terminal states is exactly the set of the states that no transition leaves.
pub terminal_iff_no_transition :
    (s : PipelineState)
    → (in_terminal_states s ≡ true) ↔ ((t : PipelineState) → is_listed s t ≡ false)
terminal_iff_no_transition s = (
  λ h t. is_listed-terminal s t h,
  λ h. elim (Bool-cases (in_terminal_states s)) [
    | inl terminal ↦ terminal
    | inr live ↦ ground (arith, is_listed-next_state s live, h (next_state s))
  ],
)

-- How far a state is along the pipeline. Every transition goes further.
unfoldable pub rank : PipelineState → ℕ
rank discovered = 0
rank collected = 1
rank normalized = 2
rank deduplicated = 3
rank classified = 4
rank extracted = 5
rank validated = 6
rank needs_review = 7
rank _ = 8

pub rank-is_listed : (s t : PipelineState) → is_listed s t ≡ true → rank s < rank t
unfolding is_listed rank
rank-is_listed s t h = ground arith

-- `can_transition` answers true exactly where `transition` does not raise.
pub can_transition-transition :
    (current target : StateRef)
    → can_transition current target ≡ succeeds (transition current target)
unfolding can_transition transition
can_transition-transition current target = elim (Result-cases (state_value current)) [
  | inl (s, es) ↦ elim (Result-cases (state_value target)) [
    | inl (t, et) ↦ ground arith
    | inr (e, et) ↦ ground arith
  ]
  | inr (e, es) ↦ ground arith
]
