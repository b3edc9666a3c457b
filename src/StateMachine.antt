-- ===== src/StateMachine.antt =====
-- src/scalping_briefing/pipeline/state_machine.py: the processing states of a document version,
-- the table of allowed transitions, and the record that keeps the retry axis beside the state.
pub mod Names
pub mod Table
pub mod Paths
pub mod Records
mod Examples
use inno_scalping_crawling.Common.{
  ℕ, String, Bool, true, false, not, Option, none, some, List, [], ◌∷◌, Result, ok, err, raise_if,
  succeeds, str_eq, if◌then◌else◌, ◌&&◌, ◌>>=◌, ◌>>◌,
}

pub data PipelineState : Type 0 where
  discovered collected normalized deduplicated : PipelineState
  classified extracted validated needs_review : PipelineState
  approved rejected archived duplicate : PipelineState
  irrelevant background_only access_denied failed : PipelineState

-- The values of the enumeration.
unfoldable pub value : PipelineState → String
value discovered = "discovered"
value collected = "collected"
value normalized = "normalized"
value deduplicated = "deduplicated"
value classified = "classified"
value extracted = "extracted"
value validated = "validated"
value needs_review = "needs_review"
value approved = "approved"
value rejected = "rejected"
value archived = "archived"
value duplicate = "duplicate"
value irrelevant = "irrelevant"
value background_only = "background_only"
value access_denied = "access_denied"
value failed = "failed"

-- `VALID_STATES`, in the order of the enumeration.
abbrev pub valid_states : List PipelineState
valid_states =
    discovered ∷ collected ∷ normalized ∷ deduplicated ∷ classified ∷ extracted ∷ validated
    ∷ needs_review ∷ approved ∷ rejected ∷ archived ∷ duplicate ∷ irrelevant ∷ background_only
    ∷ access_denied ∷ failed ∷ []

-- Whether the pair is listed in `ALLOWED_TRANSITIONS`.
unfoldable pub is_listed : PipelineState → PipelineState → Bool
is_listed discovered collected = true
is_listed discovered access_denied = true
is_listed discovered failed = true
is_listed collected normalized = true
is_listed collected failed = true
is_listed normalized deduplicated = true
is_listed normalized duplicate = true
is_listed deduplicated classified = true
is_listed deduplicated failed = true
is_listed classified extracted = true
is_listed classified irrelevant = true
is_listed classified background_only = true
is_listed extracted validated = true
is_listed extracted failed = true
is_listed validated needs_review = true
is_listed validated rejected = true
is_listed needs_review approved = true
is_listed needs_review rejected = true
is_listed needs_review archived = true
is_listed _ _ = false

-- Whether the state is in `TERMINAL_STATES`.
unfoldable pub in_terminal_states : PipelineState → Bool
in_terminal_states approved = true
in_terminal_states rejected = true
in_terminal_states archived = true
in_terminal_states duplicate = true
in_terminal_states irrelevant = true
in_terminal_states background_only = true
in_terminal_states access_denied = true
in_terminal_states failed = true
in_terminal_states _ = false

-- A state is given as a member of the enumeration or as a text.
pub data StateRef : Type 0 where
  enum : PipelineState → StateRef
  text : String → StateRef

pub data InvalidTransition : Type 0 where
  unknown_state : String → InvalidTransition
  not_listed : PipelineState → PipelineState → InvalidTransition

unfoldable pub find_state : String → List PipelineState → Option PipelineState
find_state t [] = none
find_state t (s ∷ states) = if str_eq t (value s) then some s else find_state t states

abbrev found : String → Option PipelineState → Result InvalidTransition PipelineState
found t none = err (unknown_state t)
found t (some s) = ok s

-- `_state_value`
unfoldable pub state_value : StateRef → Result InvalidTransition PipelineState
state_value (enum s) = ok s
state_value (text t) = found t (find_state t valid_states)

-- `transition`: the target comes back as it was given.
unfoldable pub transition : StateRef → StateRef → Result InvalidTransition StateRef
unfolding state_value
transition current target = do
  current_value ← state_value current
  target_value ← state_value target
  raise_if (not (is_listed current_value target_value)) (not_listed current_value target_value)
  ok target

-- `can_transition`
unfoldable pub can_transition : StateRef → StateRef → Bool
unfolding state_value
can_transition current target = succeeds (do
  current_value ← state_value current
  target_value ← state_value target
  raise_if (not (is_listed current_value target_value)) (not_listed current_value target_value))

unfoldable pub is_terminal : StateRef → Result InvalidTransition Bool
unfolding state_value
is_terminal state = do s ← state_value state; ok (in_terminal_states s)

-- Instants are numbers of microseconds.
pub record RetryMetadata : Type 0 where
  pub error_class : Option String
  pub retry_count : ℕ
  pub next_retry_at : Option ℕ
  pub last_error_at : Option ℕ
  pub terminal_error : Bool

pub data RetryMetadataError : Type 0 where
  terminal_requires_class : RetryMetadataError

abbrev is_none : Option String → Bool
is_none none = true
is_none (some _) = false

-- `RetryMetadata.__post_init__`; a natural number is never negative.
unfoldable pub check_metadata : RetryMetadata → Result RetryMetadataError RetryMetadata
check_metadata r = do
  raise_if (r.terminal_error && is_none r.error_class) terminal_requires_class
  ok r

-- `PipelineStateRecord`, whose constructor turns the given state into a member.
pub record PipelineStateRecord : Type 0 where
  pub state : PipelineState
  pub retry : RetryMetadata

unfoldable pub make_record : StateRef → RetryMetadata → Result InvalidTransition PipelineStateRecord
unfolding state_value
make_record state retry = do s ← state_value state; ok (record { state = s; retry = retry })

unfoldable pub transition_to :
    PipelineStateRecord → StateRef → Result InvalidTransition PipelineStateRecord
unfolding transition state_value
transition_to r target = do
  transition (enum r.state) target
  s ← state_value target
  ok (record r { state = s })

unfoldable pub with_retry : PipelineStateRecord → RetryMetadata → PipelineStateRecord
with_retry r retry = record r { retry = retry }
