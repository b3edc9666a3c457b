-- ===== src/StateMachine/Names.antt =====
-- The names of the states (state_machine.py): reading a name back gives the state.
use inno_scalping_crawling.Common.{String, ◌≡◌, refl, some, List, [], ◌∷◌, arith, eq_iff, ok}
use inno_scalping_crawling.StateMachine.{
  PipelineState, discovered, value, valid_states, find_state, text, state_value,
}

find_state-value : (s : PipelineState) → find_state (value s) valid_states ≡ some s
unfolding find_state value
find_state-value discovered = refl
find_state-value _ = refl

value-find_state :
    (t : String) (states : List PipelineState) (s : PipelineState)
    → find_state t states ≡ some s
    → value s ≡ t
unfolding find_state
value-find_state t [] s h = ground arith
value-find_state t (x ∷ states) s h =
    ground (arith, eq_iff t (value x), value-find_state t states s)

-- The name of every state is read as that state.
pub state_value-value : (s : PipelineState) → state_value (text (value s)) ≡ ok s
unfolding state_value
state_value-value s = ground (arith, find_state-value s)

-- A text that is read as a state is the name of that state.
pub value-state_value : (t : String) (s : PipelineState) → state_value (text t) ≡ ok s → value s ≡ t
unfolding state_value
value-state_value t s h = ground (arith, value-find_state t valid_states s)
